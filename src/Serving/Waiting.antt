-- ===== src/Serving/Waiting.antt =====
-- main.py, the endpoints that read a result. What the store holds and whether the deadline has passed at
-- each poll are functions of the number of the poll.
pub mod Laws
use zlttbots.Prelude.{
  ℕ, zero, suc, Bool, true, false, not, ◌||◌, String, str_eq, Option, none, some, if◌then◌else◌,
}
use zlttbots.Serving.Model.{Predictors}
use zlttbots.Serving.Runtime.{Service, StoredResult, get_result}

pub data Answer (pr : Predictors) : Type 0 where
  found : StoredResult pr → Answer pr
  -- the status of an answer without a result
  bare : String → Answer pr

module _ {pr : Predictors} where
  unfoldable pub fetch_result : String → Service pr → Answer pr
  fetch_result job_id s = elim (get_result job_id s) [ none ↦ bare "pending" | some r ↦ found r ]

  -- `result.get("status") not in {"queued", "pending"}`
  abbrev pub is_final : StoredResult pr → Bool
  is_final r = not (str_eq r.status "queued" || str_eq r.status "pending")

  -- what one poll comes to: a result that is final, a timeout, or another poll
  unfoldable pub poll : Option (StoredResult pr) → Bool → Option (Answer pr)
  poll none late = if late then some (bare "timeout") else none
  poll (some r) late =
      if is_final r then some (found r) else if late then some (bare "timeout") else none

  module _ (observe : ℕ → Option (StoredResult pr)) (late : ℕ → Bool) where
    -- the loop of `wait_result` from the k-th poll on, on fuel; none is a loop that did not end
    unfoldable pub wait_from : ℕ → ℕ → Option (Answer pr)
    unfolding poll
    wait_from zero k = none
    wait_from (suc fuel) k =
        let rest = wait_from fuel (suc k) in
        elim (poll (observe k) (late k)) [ none ↦ rest | some a ↦ some a ]

    unfoldable pub wait_result : ℕ → Option (Answer pr)
    unfolding wait_from
    wait_result fuel = wait_from fuel 0
