-- ===== src/Execution/Tests.antt =====
-- The token bucket at a few times, with one token for each second.
use zlttbots.Prelude.{ℕ, ◌-◌, ◌≡◌, refl, [], ◌∷◌}
use zlttbots.Execution.{Bucket, serve_all, acquire_token, refill, take_token}
use zlttbots.Execution.Laws.{serve_all_lem}

abbrev seconds : ℕ → ℕ → ℕ
seconds a b = b - a

abbrev bucket : Bucket
bucket = record { max_tokens = 3; tokens = 1; last_refill = 10 }

serve_all_lem_example :
    ((serve_all seconds (10 ∷ 10 ∷ []) bucket).0 ≡ 1)
    × ((serve_all seconds (10 ∷ 10 ∷ []) bucket).1.tokens ≡ 0)
    × ((serve_all seconds (10 ∷ 10 ∷ []) bucket).1.last_refill ≡ 10)
serve_all_lem_example = serve_all_lem seconds (10 ∷ 10 ∷ []) bucket (refl, (refl, tt))

two_served : (serve_all seconds (10 ∷ 10 ∷ 12 ∷ []) bucket).0 ≡ 2
unfolding serve_all acquire_token refill take_token
two_served = refl
