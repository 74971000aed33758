-- ===== src/Maturity/Admission/Laws.antt =====
-- The lanes do not disturb each other, and neither goes over its limit.
use zlttbots.Prelude.{
  ◌≤◌, ◌≡◌, refl, Bool, true, false, String, str_eq, List, [], ◌∷◌, keep_if, arith, Bool-cases, inl,
  inr,
}
use zlttbots.Prelude.Int.{pos_part}
use zlttbots.Maturity.Admission.{QueueAdmissionController, admit, complete}

-- a call of the controller
pub data Call : Type 0 where
  admission : String → Call
  completion : String → Call

unfoldable pub serve : Call → QueueAdmissionController → QueueAdmissionController
serve (admission p) c = (admit p c).1
serve (completion p) c = complete p c

unfoldable pub serve_all : List Call → QueueAdmissionController → QueueAdmissionController
serve_all [] c = c
serve_all (x ∷ xs) c = serve_all xs (serve x c)

abbrev pub is_critical : Call → Bool
is_critical (admission p) = str_eq p "critical"
is_critical (completion p) = str_eq p "critical"

pub record InLimits (c : QueueAdmissionController) : Type 0 where
  pub critical_bound : c.critical ≤ pos_part c.critical_limit
  pub best_effort_bound : c.best_effort ≤ pos_part c.best_effort_limit

serve-InLimits : (x : Call) (c : QueueAdmissionController) → InLimits c → InLimits (serve x c)
unfolding serve admit complete
serve-InLimits (admission p) c v =
    let a = v.critical_bound in
    let b = v.best_effort_bound in
    record { critical_bound = ground arith; best_effort_bound = ground arith }
serve-InLimits (completion p) c v =
    let a = v.critical_bound in
    let b = v.best_effort_bound in
    record { critical_bound = ground arith; best_effort_bound = ground arith }

-- Whatever calls come in whatever order, a controller whose lanes are within their limits keeps them
-- there.
pub serve_all-InLimits :
    (xs : List Call) (c : QueueAdmissionController) → InLimits c → InLimits (serve_all xs c)
unfolding serve_all
serve_all-InLimits [] c v = v
serve_all-InLimits (x ∷ xs) c v = serve_all-InLimits xs (serve x c) (serve-InLimits x c v)

-- two controllers whose critical lanes are alike
abbrev SameLane : QueueAdmissionController → QueueAdmissionController → Type 0
SameLane c d = (c.critical_limit ≡ d.critical_limit) × (c.critical ≡ d.critical)

serve-critical :
    (x : Call) (c d : QueueAdmissionController)
    → is_critical x ≡ true
    → SameLane c d
    → SameLane (serve x c) (serve x d)
unfolding serve admit complete
serve-critical (admission p) c d h (l, n) = (ground arith, ground arith)
serve-critical (completion p) c d h (l, n) = (ground arith, ground arith)

serve-best_effort :
    (x : Call) (c d : QueueAdmissionController)
    → is_critical x ≡ false
    → SameLane c d
    → SameLane (serve x c) d
unfolding serve admit complete
serve-best_effort (admission p) c d h (l, n) = (ground arith, ground arith)
serve-best_effort (completion p) c d h (l, n) = (ground arith, ground arith)

lanes_apart :
    (xs : List Call) (c d : QueueAdmissionController)
    → SameLane c d
    → SameLane (serve_all xs c) (serve_all (keep_if is_critical xs) d)
unfolding serve_all
lanes_apart [] c d s = s
lanes_apart (x ∷ xs) c d s = elim (Bool-cases (is_critical x)) [
  | inl h ↦ rw h (lanes_apart xs (serve x c) (serve x d) (serve-critical x c d h s))
  | inr h ↦ rw h (lanes_apart xs (serve x c) d (serve-best_effort x c d h s))
]

-- After any calls, a critical request is admitted exactly if it would be admitted after the critical
-- ones of these calls alone: best-effort work takes no place from critical work.
pub admit_isolated :
    (xs : List Call) (c : QueueAdmissionController)
    → (admit "critical" (serve_all xs c)).0
      ≡ (admit "critical" (serve_all (keep_if is_critical xs) c)).0
unfolding admit
admit_isolated xs c = let (l, n) = lanes_apart xs c c (refl, refl) in ground arith
