-- ===== src/Federation/Scheduler.antt =====
-- services/scheduler/src/main.py: the check of a task's token and the choice of a node. The answer of
-- the federation is an argument; the number that a text denotes is a parameter.
pub mod Choice
pub mod Laws
use zlttbots.Prelude.{
  ℕ, zero, suc, Bool, true, false, not, ◌||◌, ◌&&◌, String, str_eq, text_leb, string_eq, Option,
  none, some, List, [], ◌∷◌, length, keep_if, Outcome, ok, raised, Error, http_error, value_error,
  raise_if, ◌>>◌, ◌>>=◌, if◌then◌else◌,
}
use zlttbots.Prelude.Int.{ℤ, leb_ℤ, ltb_ℤ}
use zlttbots.Prelude.Dict.{Dict, lookup, get_or}
use zlttbots.Prelude.Sorting.{sorted}
use zlttbots.Prelude.Value.{Value, Payload, text}
use zlttbots.Federation.Tokens.{Codecs, decode_task_token}
use zlttbots.Federation.Registry.{NodeRow}

pub record Task : Type 0 where
  pub task_id : String
  pub required_capacity : ℤ
  pub region : String
  pub tenant_id : String
  pub max_latency_ms : ℤ
  pub task_token : String

pub record Assignment : Type 0 where
  pub assigned : Option String
  pub candidate_count : ℕ
  pub policy : String
  pub reason : Option String
  pub labels : Dict String String

-- whether the federation answers
unfoldable pub healthz : Bool → String × Bool
healthz federation_ok = (if federation_ok then "ok" else "degraded", federation_ok)

-- `none` is a request that fails, or an answer that is not JSON
unfoldable pub fetch_nodes : Option (List NodeRow) → Outcome (List NodeRow)
fetch_nodes none = raised (http_error 503 "federation unavailable")
fetch_nodes (some nodes) = ok nodes

-- `claims.get(key) == expected`, for a text
abbrev pub is_text : String → Option Value → Bool
is_text expected (some (text s)) = str_eq s expected
is_text expected _ = false

-- the tests of the claims; a value that is not an object has no `get`
unfoldable pub check_claims : Task → Option Payload → Outcome Payload
check_claims task none = raised (value_error "claims are not an object")
check_claims task (some claims) =
    raise_if (not (is_text task.tenant_id (lookup "tenant_id" claims)))
      (http_error 403 "tenant mismatch in task token")
    >> raise_if (not (is_text task.region (lookup "region" claims)))
        (http_error 403 "region mismatch in task token")
    >> ok claims

module _ (co : Codecs) (secret : String) where
  unfoldable pub verify_task_token : Task → Outcome Payload
  unfolding check_claims
  verify_task_token task = decode_task_token co secret task.task_token >>= check_claims task

-- a latency that is not a number
abbrev pub latency_error : Error
latency_error = value_error "invalid literal for int() with base 10"

module _ (parse_int : String → Option ℤ) where
  -- `int(labels.get("latency_ms", task.max_latency_ms))`
  unfoldable pub latency_of : Task → NodeRow → Outcome ℤ
  latency_of task n = elim (lookup "latency_ms" n.labels) [
    | none ↦ ok task.max_latency_ms
    | some s ↦ elim (parse_int s) [ none ↦ raised latency_error | some ms ↦ ok ms ]
  ]

  -- the condition of the comprehension, which reads the latency of a node with the capacity only
  unfoldable pub is_candidate : Task → NodeRow → Outcome Bool
  unfolding latency_of
  is_candidate task n =
      if leb_ℤ task.required_capacity n.capacity
      then (latency_of task n >>= λ ms.
          ok (leb_ℤ ms task.max_latency_ms && str_eq (get_or "ready" "status" n.labels) "ready"))
      else ok false

  unfoldable pub candidates_of : Task → List NodeRow → Outcome (List NodeRow)
  unfolding is_candidate
  candidates_of task [] = ok []
  candidates_of task (n ∷ ns) = is_candidate task n >>= λ fits.
      candidates_of task ns >>= λ rest. ok (if fits then n ∷ rest else rest)

-- `score(a) <= score(b)`: the region of the task first, then the larger capacity, then the identifier
unfoldable pub score_leb : String → NodeRow → NodeRow → Bool
score_leb region a b =
    let near_a = str_eq a.region region in
    let near_b = str_eq b.region region in
    (near_a && not near_b)
    || (not (near_b && not near_a)
        && (ltb_ℤ b.capacity a.capacity
            || (leb_ℤ b.capacity a.capacity && text_leb a.node_id b.node_id)))

abbrev pub policy_name : String
policy_name = "capacity-latency-aware"

-- the answer for the candidates in the order of their scores
unfoldable pub assignment_of : List NodeRow → Assignment
assignment_of [] = record {
  assigned = none;
  candidate_count = 0;
  policy = policy_name;
  reason = some "no nodes satisfy tenant, capacity, and latency constraints";
  labels = [];
}
assignment_of (selected ∷ rest) = record {
  assigned = some selected.node_id;
  candidate_count = suc (length rest);
  policy = policy_name;
  reason = none;
  labels = selected.labels;
}

module _ (co : Codecs) (secret : String) (parse_int : String → Option ℤ) where
  unfoldable pub assign : Task → Option (List NodeRow) → Outcome Assignment
  unfolding candidates_of assignment_of verify_task_token
  assign task answer = verify_task_token co secret task >>= λ claims.
      fetch_nodes answer >>= λ nodes.
      candidates_of parse_int task
        (keep_if (λ (n : NodeRow). str_eq n.tenant_id task.tenant_id) nodes)
      >>= λ candidates. ok (assignment_of (sorted (score_leb task.region) candidates))
