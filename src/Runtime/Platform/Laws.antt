-- ===== src/Runtime/Platform/Laws.antt =====
-- The runtime as it is put together: requests to the crawlers.
use zlttbots.Prelude.{
  ℕ, ◌+◌, ◌%◌, ◌≡◌, refl, ◌⊎◌, [], ◌∷◌, ok, concat, ◌==◌, if◌then◌else◌, arith, inl, inr, show,
}
use zlttbots.Prelude.Dict.{lookup, insert, get_or}
use zlttbots.Runtime.Discovery.{ServiceInstance, endpoint, register, resolve, without_endpoint}
use zlttbots.Runtime.Gateway.{route, add_route}
use zlttbots.Runtime.Gateway.Laws.{after_calls, turn_served}
use zlttbots.Runtime.Platform.{new_runtime, bootstrap, market_crawler, crawler_canary}

mod_two : (k : ℕ) → (k % 2 ≡ 0) ⊎ (k % 2 ≡ 1)
mod_two k = ground arith

-- The crawler that serves the call of a number.
abbrev pub crawler_at : ℕ → ServiceInstance
crawler_at k = if k % 2 == 0 then market_crawler else crawler_canary

-- Once a new runtime has been bootstrapped, the calls of "/crawl" go in turns to the crawler and to its
-- canary, the first one to the crawler.
pub crawl_alternates :
    (k : ℕ)
    → (route "/crawl" (after_calls k "/crawl" (bootstrap new_runtime).gateway)).0
      ≡ ok (concat (endpoint (crawler_at k) ∷ "/crawl" ∷ []))
unfolding bootstrap register add_route insert lookup get_or resolve without_endpoint endpoint show
crawl_alternates k =
    turn_served "/crawl" (record { path = "/crawl"; service = "market-crawler" }) k (crawler_at k)
      (bootstrap new_runtime).gateway refl
      (let start : 0 + k ≡ k = omega arith in
        rw start (elim (mod_two k) [ inl e ↦ rw e refl | inr e ↦ rw e refl ]))
