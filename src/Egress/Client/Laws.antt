-- ===== src/Egress/Client/Laws.antt =====
-- What `post` promises behind the guard: the first reply that is no failure of the server is returned,
-- and a run of failures ends with an error once the attempts are used up.
use mathlib.Core.List.{append-nil, append_assoc}
use zlttbots.Prelude.{
  ℕ, zero, suc, ◌+◌, ◌-◌, ◌<◌, ◌≤◌, ◌≡◌, refl, true, false, String, Option, none, List, [], ◌∷◌,
  ◌++◌, ok, raised, arith, ap, ◌∙◌,
}
use zlttbots.Prelude.Int.{ℤ, pos, pos_part}
use zlttbots.Egress.Url.{Parsers, validate_url}
use zlttbots.Egress.Client.{
  Backoff, Reply, SafeHttpClient, exhausted, last_after, is_final, sleep_before, attempts, post,
}

module _ {bo : Backoff} {W : Type 0} (client : SafeHttpClient bo) (send : W → Reply × W)
    (url : String) where
  -- the world after a number of requests
  unfoldable pub world_after : ℕ → W → W
  world_after zero w = w
  world_after (suc n) w = world_after n (send w).1

  -- none of the first replies is final
  abbrev pub Transient : ℕ → W → Type 0
  Transient n w = (k : ℕ) → k < n → is_final (send (world_after k w)).0 ≡ false

  -- the last response among the first replies
  unfoldable pub last_seen : ℕ → Option ℤ → W → Option ℤ
  last_seen zero last w = last
  last_seen (suc n) last w = last_seen n (last_after last (send w).0) (send w).1

  -- the delays behind the attempts from one on
  unfoldable pub waits : ℕ → ℕ → List bo.Delay
  waits attempt zero = []
  waits attempt (suc n) = bo.doubled client.backoff (attempt - 1) ∷ waits (attempt + 1) n

  Transient-rest : (n : ℕ) (w : W) → Transient (suc n) w → Transient n (send w).1
  unfolding world_after
  Transient-rest n w h k lt = h (suc k) (omega arith)

  attempt_again :
      (left attempt : ℕ) (last : Option ℤ) (slept : List bo.Delay) (w : W)
      → is_final (send w).0 ≡ false
      → attempts client send url (suc left) attempt last slept w
        ≡ attempts client send url left
            (attempt + 1)
            (last_after last (send w).0)
            (sleep_before client send url attempt slept)
            (send w).1
  unfolding attempts
  attempt_again left attempt last slept w h = rw h refl

  attempt_last :
      (left attempt : ℕ) (last : Option ℤ) (slept : List bo.Delay) (w : W)
      → is_final (send w).0 ≡ true
      → attempts client send url (suc left) attempt last slept w
        ≡ (ok (send w).0, slept, (send w).1)
  unfolding attempts
  attempt_last left attempt last slept w h = rw h refl

  module _ (r : ℕ) (limit : client.retries ≡ pos r) where
    sleeps :
        (attempt : ℕ) (slept : List bo.Delay)
        → attempt < r
        → sleep_before client send url attempt slept
          ≡ slept ++ bo.doubled client.backoff (attempt - 1) ∷ []
    sleeps attempt slept h = rw limit (ground arith)

    rests :
        (attempt : ℕ) (slept : List bo.Delay)
        → r ≤ attempt
        → sleep_before client send url attempt slept ≡ slept
    rests attempt slept h = rw limit (ground arith)

    first_from :
        (n left attempt : ℕ) (last : Option ℤ) (slept : List bo.Delay) (w : W)
        → attempt + left ≡ suc r
        → n < left
        → Transient n w
        → is_final (send (world_after n w)).0 ≡ true
        → attempts client send url left attempt last slept w
          ≡ (ok (send (world_after n w)).0, slept ++ waits attempt n, (send (world_after n w)).1)
    unfolding world_after waits
    first_from n zero attempt last slept w e lt t f = absurd (omega arith)
    first_from zero (suc left) attempt last slept w e lt t f =
        rw (append-nil slept) (attempt_last left attempt last slept w f)
    first_from (suc n) (suc left) attempt last slept w e lt t f =
        rw (attempt_again left attempt last slept w (t 0 (omega arith))) (
          rw (sleeps attempt slept (omega arith)) (
            first_from n left (attempt + 1) _ _ (send w).1 (omega arith) (omega arith)
              (Transient-rest n w t) f
            ∙ rw append_assoc))

    exhausted_from :
        (left attempt : ℕ) (last : Option ℤ) (slept : List bo.Delay) (w : W)
        → attempt + suc left ≡ suc r
        → Transient (suc left) w
        → attempts client send url (suc left) attempt last slept w ≡ (
          raised (exhausted url (last_seen (suc left) last w)),
          slept ++ waits attempt left,
          world_after (suc left) w,
        )
    unfolding world_after waits last_seen attempts
    exhausted_from zero attempt last slept w e t =
        rw (attempt_again 0 attempt last slept w (t 0 (omega arith)))
          (rw (rests attempt slept (omega arith)) (rw (append-nil slept) refl))
    exhausted_from (suc left) attempt last slept w e t =
        rw (attempt_again (suc left) attempt last slept w (t 0 (omega arith))) (
          rw (sleeps attempt slept (omega arith)) (
            exhausted_from left (attempt + 1) _ _ (send w).1 (omega arith)
              (Transient-rest (suc left) w t)
            ∙ rw append_assoc))

    module _ (p : Parsers) (allowed : validate_url p client.allowed_hosts url ≡ ok tt) where
      -- With r attempts at a URL that the guard accepts: if the first n replies are failures, n less than
      -- r, and the next one is a response with a status below 500, `post` returns it, after n + 1
      -- requests and the n delays between them.
      pub post_first :
          (n : ℕ) (w : W)
          → n < r
          → Transient n w
          → is_final (send (world_after n w)).0 ≡ true
          → post client send url p w
            ≡ (ok (send (world_after n w)).0, waits 1 n, (send (world_after n w)).1)
      unfolding post
      post_first n w lt t f =
          let rounds : pos_part client.retries ≡ r = ap pos_part limit in
          rw (allowed, post) (rw rounds (first_from n r 1 none [] w (omega arith) lt t f))

      -- With r attempts, r = k + 1, at a URL that the guard accepts: if the first r replies are failures,
      -- `post` makes no other request, waits k times, and raises an error that names the last status
      -- that was seen, if one was.
      pub post-exhausted :
          (k : ℕ) (w : W)
          → r ≡ suc k
          → Transient (suc k) w
          → post client send url p w
            ≡ (raised (exhausted url (last_seen (suc k) none w)), waits 1 k, world_after (suc k) w)
      unfolding post
      post-exhausted k w e t =
          let rounds : pos_part client.retries ≡ suc k = ap pos_part limit ∙ e in
          rw (allowed, post) (rw rounds (exhausted_from k 1 none [] w (omega arith) t))
