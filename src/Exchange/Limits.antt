-- ===== src/Exchange/Limits.antt =====
-- security.py: the nonces seen, and the times of the requests of each address.
pub mod Laws
use zlttbots.Prelude.{
  ℕ, Bool, true, false, not, ◌||◌, String, string_eq, str_eq, List, [], ◌∷◌, ◌++◌, length, keep_if,
  any_of, leb, truthy, Option, none, some, if◌then◌else◌,
}
use zlttbots.Prelude.Dict.{Dict, insert, get_or}
use zlttbots.Exchange.Floats.{Floats}

-- `REQUESTS_PER_SECOND`
abbrev pub requests_per_second : ℕ
requests_per_second = 10

-- `nonce in NONCES`
abbrev pub seen : String → List String → Bool
seen nonce nonces = any_of (str_eq nonce) nonces

-- The nonces come last first: the code only asks whether one is there.
unfoldable pub check_replay : String → List String → Bool × List String
check_replay nonce nonces =
    if not (truthy nonce) || seen nonce nonces then (false, nonces) else (true, nonce ∷ nonces)

module _ (fl : Floats) where
  -- the requests of less than a second ago
  unfoldable pub recent : fl.Float → List fl.Float → List fl.Float
  recent now stamps = keep_if (λ stamp. fl.less (fl.minus now stamp) fl.one_float) stamps

  unfoldable pub rate_limit :
      fl.Float → String → Dict String (List fl.Float) → Bool × Dict String (List fl.Float)
  unfolding recent
  rate_limit now ip rate =
      let stamps = recent now (get_or [] ip rate) in
      if leb requests_per_second (length stamps)
      then (false, insert ip stamps rate)
      else (true, insert ip (stamps ++ now ∷ []) rate)
