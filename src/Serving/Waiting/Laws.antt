-- ===== src/Serving/Waiting/Laws.antt =====
-- Waiting ends by its deadline, with the first answer there is.
use zlttbots.Prelude.{
  if◌then◌else◌, ℕ, zero, suc, ◌+◌, ◌≤◌, ◌≡◌, refl, ◌∙◌, Bool, true, false, Option, none, some,
  Option-cases, Bool-cases, inl, inr, arith, subst, ap, sym, not, ◌||◌, ◌&&◌,
}
use zlttbots.Serving.Model.{Predictors}
use zlttbots.Serving.Runtime.{StoredResult}
use zlttbots.Serving.Waiting.{Answer, found, bare, is_final, poll, wait_from, wait_result}

module _ {pr : Predictors} (observe : ℕ → Option (StoredResult pr)) (late : ℕ → Bool) where
  -- a result that is final
  abbrev pub has_final : Option (StoredResult pr) → Bool
  has_final none = false
  has_final (some r) = is_final r

  -- the answer that is due for what is stored: the result if it is final, else a timeout
  abbrev pub due : Option (StoredResult pr) → Answer pr
  due none = bare "timeout"
  due (some r) = if is_final r then found r else bare "timeout"

  -- a number of polls, from one on, that find no final result, before the deadline
  unfoldable pub quiet : ℕ → ℕ → Bool
  quiet from zero = true
  quiet from (suc count) =
      let rest = quiet (suc from) count in not (has_final (observe from)) && not (late from) && rest

  -- the answer of the k-th poll from one on, which is the first that finds a final result or the
  -- deadline passed
  abbrev pub IsFirst : ℕ → ℕ → Answer pr → Type 0
  IsFirst from k a =
      ((has_final (observe (from + k)) || late (from + k)) ≡ true)
      × (a ≡ due (observe (from + k)))
      × (quiet from k ≡ true)

  poll_answers :
      (r : Option (StoredResult pr)) (l : Bool) (a : Answer pr)
      → poll r l ≡ some a
      → ((has_final r || l) ≡ true) × (a ≡ due r)
  unfolding poll
  poll_answers none true a e = (refl, ground (arith, e))
  poll_answers none false a e = ground (arith, e)
  poll_answers (some r) l a e = elim (Bool-cases (is_final r)) [
    | inl f ↦ rw f (refl, ground (arith, f, e))
    | inr f ↦ elim (Bool-cases l) [
      | inl g ↦ rw f (g, ground (arith, f, g, e))
      | inr g ↦ ground (arith, f, g, e)
    ]
  ]

  poll_quiet :
      (r : Option (StoredResult pr)) (l : Bool)
      → poll r l ≡ none
      → (has_final r ≡ false) × (l ≡ false)
  unfolding poll
  poll_quiet none true e = ground (arith, e)
  poll_quiet none false e = (refl, refl)
  poll_quiet (some r) l e = elim (Bool-cases (is_final r)) [
    | inl f ↦ ground (arith, f, e)
    | inr f ↦ elim (Bool-cases l) [ inl g ↦ ground (arith, f, g, e) | inr g ↦ (f, g) ]
  ]

  late_answers : (r : Option (StoredResult pr)) → (a : Answer pr) × (poll r true ≡ some a)
  unfolding poll
  late_answers none = (bare "timeout", refl)
  late_answers (some r) = elim (Bool-cases (is_final r)) [
    | inl e ↦ (found r, rw e refl)
    | inr e ↦ (bare "timeout", rw e refl)
  ]

  -- the results of waiting from a poll on
  abbrev pub Waited : ℕ → ℕ → Type 0
  Waited fuel from =
      (a : Answer pr) × (k : ℕ) × (wait_from observe late (suc fuel) from ≡ some a)
      × (k ≤ fuel)
      × IsFirst from k a

  at_once :
      (fuel from : ℕ) (a : Answer pr) → poll (observe from) (late from) ≡ some a → Waited fuel from
  unfolding wait_from quiet
  at_once fuel from a e =
      let start : from + 0 ≡ from = omega arith in
      let (final, same) = poll_answers (observe from) (late from) a e in
      (a, 0, rw (e, wait_from) refl, omega arith, (rw start final, rw start same, refl))

  wait_from_lem : (fuel from : ℕ) → late (from + fuel) ≡ true → Waited fuel from
  unfolding wait_from quiet
  wait_from_lem zero from end =
      let start : from + 0 ≡ from = omega arith in
      let now : late from ≡ true = rw start at end in
      let (a, e) = late_answers (observe from) in
      at_once zero from a (ap (poll (observe from)) now ∙ e)
  wait_from_lem (suc fuel) from end = elim (Option-cases (poll (observe from) (late from))) [
    | inr (a, e) ↦ at_once (suc fuel) from a e
    | inl e ↦
        let next : from + suc fuel ≡ suc from + fuel = omega arith in
        let (a, k, result, bound, (final, same, before)) =
          wait_from_lem fuel (suc from) (ap late (sym next) ∙ end) in
        let (no_final, on_time) = poll_quiet (observe from) (late from) e in
        let shift : suc from + k ≡ from + suc k = omega arith in
        (
          a,
          suc k,
          rw (e, wait_from) result,
          omega arith,
          (
            subst (λ i. (has_final (observe i) || late i) ≡ true) shift final,
            subst (λ i. a ≡ due (observe i)) shift same,
            rw no_final (rw on_time before),
          ),
        )
  ]

  -- If the deadline has passed at the n-th poll, `wait_result` ends by that poll, at the first poll
  -- that finds a final result or the deadline passed: it returns the result if it is final, and else
  -- answers a timeout.
  pub wait_result_lem :
      (n : ℕ)
      → late n ≡ true
      → (a : Answer pr) × (k : ℕ) × (wait_result observe late (suc n) ≡ some a)
        × (k ≤ n)
        × IsFirst 0 k a
  unfolding wait_result
  wait_result_lem n end =
      let start : 0 + n ≡ n = omega arith in wait_from_lem n 0 (ap late start ∙ end)
