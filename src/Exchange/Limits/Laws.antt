-- ===== src/Exchange/Limits/Laws.antt =====
-- The two limits of a request: a nonce is good for one use, and an address keeps at most as many
-- times as it may make requests.
use zlttbots.Prelude.{
  ◌≤◌, ◌≡◌, true, false, String, string_eq, str_eq, List, [], ◌∷◌, ◌++◌, length, length-keep_if-le,
  leb, arith, Bool-cases, inl, inr, eq_iff, length-append,
}
use zlttbots.Prelude.Dict.{Dict, get_or, get_or-insert}
use zlttbots.Exchange.Floats.{Floats}
use zlttbots.Exchange.Limits.{requests_per_second, seen, check_replay, recent, rate_limit}

pub seen_refused :
    (nonce : String) (nonces : List String)
    → seen nonce nonces ≡ true
    → check_replay nonce nonces ≡ (false, nonces)
unfolding check_replay
seen_refused nonce nonces h = rw h (ground arith)

-- A nonce that was seen stays seen.
pub check_replay-keeps :
    (n nonce : String) (nonces : List String)
    → seen n nonces ≡ true
    → seen n (check_replay nonce nonces).1 ≡ true
unfolding check_replay
check_replay-keeps n nonce nonces h = ground (arith, h)

pub accepted_seen :
    (nonce : String) (nonces : List String)
    → (check_replay nonce nonces).0 ≡ true
    → seen nonce (check_replay nonce nonces).1 ≡ true
unfolding check_replay
accepted_seen nonce nonces h = ground (arith, h, eq_iff nonce nonce)

module _ (fl : Floats) where
  -- no address has more times than requests a second are allowed
  abbrev pub Bounded : Dict String (List fl.Float) → Type 0
  Bounded rate = (ip : String) → length (get_or [] ip rate) ≤ requests_per_second

  length-recent :
      (now : fl.Float) (stamps : List fl.Float) → length (recent fl now stamps) ≤ length stamps
  unfolding recent
  length-recent now stamps = length-keep_if-le _ stamps

  pub rate_limit-Bounded :
      (now : fl.Float) (ip : String) (rate : Dict String (List fl.Float))
      → Bounded rate
      → Bounded (rate_limit fl now ip rate).1
  unfolding rate_limit
  rate_limit-Bounded now ip rate h j =
      let stamps = recent fl now (get_or [] ip rate) in
      let kept = length-recent now (get_or [] ip rate) in
      let before = h ip in
      let other = h j in
      elim (Bool-cases (leb requests_per_second (length stamps))) [
        | inl full ↦ rw full (
            rw (get_or-insert [] ip j stamps rate)
              (elim (Bool-cases (str_eq ip j)) [ inl e ↦ rw e (omega arith) | inr e ↦ rw e other ]))
        | inr room ↦ rw room (
            rw (get_or-insert [] ip j (stamps ++ now ∷ []) rate) (elim (Bool-cases (str_eq ip j)) [
              | inl e ↦ rw e (rw (length-append stamps (now ∷ [])) (ground arith))
              | inr e ↦ rw e other
            ]))
      ]
