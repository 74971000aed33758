-- ===== src/Maturity/GoToMarket/Laws.antt =====
-- Which days have a plan, and which contents a post.
use zlttbots.Prelude.{
  ℕ, ◌≡◌, refl, true, false, not, ◌&&◌, Outcome, ok, raised, is_ok, is_ok-bind, is_ok-raise_if,
  arith, get_elem?, Bool-cases, inl, inr, value_error, ◌%◌, ◌>>=◌, if◌then◌else◌, is_blank,
  get_elem?_total, ◌∙◌,
}
use text.Mathlib.Text.{starts_with}
use zlttbots.Prelude.Int.{ℤ, pos, negsuc, ltb_ℤ, leb_ℤ}
use zlttbots.Maturity.GoToMarket.{
  ContentInput, plan_of, objective_of, validate_plan, validate_blocks, validate_kpi, validate_block,
  generate_daily_plan, validate_content, select_hook, generate_post, hooks,
}

blank_objective : (day : ℤ) → is_blank (objective_of day) ≡ false
unfolding is_blank
blank_objective day = elim (Bool-cases (leb_ℤ day (pos 3))) [
  | inl e ↦ rw e refl
  | inr e ↦ rw e (elim (Bool-cases (leb_ℤ day (pos 7))) [ inl f ↦ rw f refl | inr f ↦ rw f refl ])
]

-- The plan of a day passes its own checks: `generate_daily_plan` answers it on every day from the
-- first on, and raises on any other.
pub generate_daily_plan_lem :
    (day : ℤ)
    → generate_daily_plan day
      ≡ (if ltb_ℤ day (pos 1) then raised (value_error "day must be >= 1") else ok (plan_of day))
unfolding generate_daily_plan validate_plan validate_blocks validate_kpi validate_block is_blank
generate_daily_plan_lem day = elim (Bool-cases (ltb_ℤ day (pos 1))) [
  | inl e ↦ rw e refl
  | inr e ↦ rw e (rw (blank_objective day) refl)
]

is_ok_then {ℓ κ} :
    {A : Type ℓ} {B : Type κ} (m : Outcome A) (f : A → B) → is_ok (m >>= λ a. ok (f a)) ≡ is_ok m
is_ok_then (ok a) f = refl
is_ok_then (raised e) f = refl

-- There is a hook for each slot.
hook_total : (k : ℕ) → is_ok (select_hook (pos k)) ≡ true
unfolding select_hook
hook_total k =
    let (hook, found) = get_elem?_total hooks (k % 3) (omega arith) in
    let nonneg : ltb_ℤ (pos k) (pos 0) ≡ false = ground arith in
    rw (found, get_elem?) (rw nonneg refl)

is_ok-select_hook : (slot : ℤ) → is_ok (select_hook slot) ≡ not (ltb_ℤ slot (pos 0))
unfolding select_hook
is_ok-select_hook (pos k) = hook_total k ∙ ground arith
is_ok-select_hook (negsuc k) =
    let below : ltb_ℤ (negsuc k) (pos 0) ≡ true = ground arith in rw below refl

-- A post is written exactly if the link starts with "http", the number of testers is not negative and
-- neither is the slot.
pub generate_post_accepts :
    (content : ContentInput) (slot : ℤ)
    → is_ok (generate_post content slot) ≡ (
        starts_with content.product_link "http"
        && not (ltb_ℤ content.social_proof_count (pos 0))
        && not (ltb_ℤ slot (pos 0)))
unfolding generate_post validate_content
generate_post_accepts content slot =
    simp (is_ok-bind, is_ok-raise_if, is_ok_then, is_ok-select_hook) (ground arith)
