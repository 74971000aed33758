-- ===== src/Execution/Laws.antt =====
-- How many requests the bucket lets pass.
use zlttbots.Prelude.{
  ◌∷◌, List, [], ◌==◌, ℕ, ◌≡◌, refl, Bool-cases, inl, inr, arith, All, min, length, ◌-◌, ◌-◌,
}
use zlttbots.Execution.{Bucket, refill, take_token, acquire_token, serve_all}

module _ (refill_between : ℕ → ℕ → ℕ) where
  -- no token comes between the last refill and any of the times
  abbrev pub IsBurst : ℕ → List ℕ → Type 0
  IsBurst last times = All (λ now. refill_between last now ≡ 0) times

  unfilled :
      (now : ℕ) (b : Bucket)
      → refill_between b.last_refill now ≡ 0
      → refill refill_between now b ≡ b
  unfolding refill
  unfilled now b h = rw h refl

  -- Over requests between which no token comes, exactly the first ones get a token, as many as the
  -- bucket holds; they are taken out of it, and the time of its last refill stays.
  pub serve_all_lem :
      (times : List ℕ) (b : Bucket)
      → IsBurst b.last_refill times
      → ((serve_all refill_between times b).0 ≡ min b.tokens (length times))
        × ((serve_all refill_between times b).1.tokens ≡ b.tokens - length times)
        × ((serve_all refill_between times b).1.last_refill ≡ b.last_refill)
  unfolding serve_all acquire_token take_token
  serve_all_lem [] b h = (ground arith, ground arith, refl)
  serve_all_lem (now ∷ times) b (dry, h) =
      rw (unfilled now b dry) (elim (Bool-cases (b.tokens == 0)) [
        | inl e ↦
            let (n, left, last) = serve_all_lem times b h in rw e (ground arith, ground arith, last)
        | inr e ↦
            let (n, left, last) = serve_all_lem times (record b { tokens = b.tokens - 1 }) h in
            rw e (ground arith, ground arith, last)
      ])
