-- ===== src/Federation/Scheduler/Laws.antt =====
-- Which node a task gets, and which tasks get one.
use zlttbots.Prelude.Int.{ℤ}
use zlttbots.Prelude.{
  ◌≡◌, refl, ◌⊎◌, Bool, true, false, not, ◌||◌, ◌&&◌, String, str_eq, Option, none, some, List, [],
  ◌∷◌, All, All-mono, All-of_keep_if, All-keep_if_both, keep_if, Outcome, ok, raised, arith, ap,
  Error, ◌>>=◌, is_ok, Bool-cases, inl, inr, ok_of_bind, raise_if, ◌>>◌,
}
use zlttbots.Prelude.Int.{ℤ}
use zlttbots.Prelude.Dict.{lookup}
use zlttbots.Prelude.Sorting.{sorted, sorted-All, unsorted-All, IsSorted, sorted-IsSorted}
use zlttbots.Prelude.Value.{Payload}
use zlttbots.Federation.Tokens.{
  Codecs, encode_signed_claims, decode_task_token, decode_parts, claims_of,
}
use zlttbots.Federation.Tokens.Laws.{Lawful, decode-encode}
use zlttbots.Federation.Registry.{NodeRow, NodeRegister, claims_for}
use zlttbots.Federation.Scheduler.{
  Task, Assignment, score_leb, assignment_of, verify_task_token, check_claims, fetch_nodes, assign,
}
use zlttbots.Federation.Scheduler.Choice.{
  can_run, score_leb_total, score_leb_trans, IsReadable, candidates_of_readable,
}

module _ (parse_int : String → Option ℤ) (task : Task) where
  -- whether a node may run the task
  abbrev pub suitable : NodeRow → Bool
  suitable n = str_eq n.tenant_id task.tenant_id && can_run parse_int task n

  abbrev ours : List NodeRow → List NodeRow
  ours nodes = keep_if (λ (n : NodeRow). str_eq n.tenant_id task.tenant_id) nodes

  module _ (P : NodeRow → Type 0) (nodes : List NodeRow) where
    -- no node may run the task and none is assigned, or the one that is assigned is the best that may
    abbrev pub IsChoice : Assignment → Type 0
    IsChoice a =
        ((a.assigned ≡ none) × All (λ n. suitable n ≡ false) nodes)
        ⊎ ((best : NodeRow) × (a.assigned ≡ some best.node_id)
            × P best
            × (suitable best ≡ true)
            × All (λ n. (not (suitable n) || score_leb task.region best n) ≡ true) nodes)

    pick :
        (found : List NodeRow)
        → IsSorted (score_leb task.region) found
        → All (λ n. P n × (suitable n ≡ true)) found
        → ((R : NodeRow → Type 0) → All R found → All (λ n. suitable n ≡ true → R n) nodes)
        → IsChoice (assignment_of found)
    unfolding assignment_of
    pick [] order each back =
        inl (refl, All-mono nodes (λ n h. unsuited (suitable n) h) (back (λ _. true ≡ false) tt))
      where
        unsuited : (b : Bool) → (b ≡ true → true ≡ false) → b ≡ false
        unsuited true h = h refl
        unsuited false h = refl
    pick (best ∷ rest) (order, _) ((p, s), each) back = inr (
      best,
      refl,
      p,
      s,
      All-mono nodes (λ n h. suited (suitable n) (score_leb task.region best n) h)
          (back (λ n. score_leb task.region best n ≡ true)
            (ground (arith, score_leb_total task.region best best), order)),
    )
      where
        suited : (b c : Bool) → (b ≡ true → c ≡ true) → (not b || c) ≡ true
        suited true c h = h refl
        suited false c h = refl

    choice :
        All P nodes
        → IsChoice (
            assignment_of
              (sorted (score_leb task.region) (keep_if (can_run parse_int task) (ours nodes))))
    choice h =
        let order = score_leb task.region in
        let found = keep_if (can_run parse_int task) (ours nodes) in
        let each =
          All-keep_if_both _ (can_run parse_int task) (ours nodes)
            (All-keep_if_both P (λ (n : NodeRow). str_eq n.tenant_id task.tenant_id) nodes h) in
        pick (sorted order found)
          (sorted-IsSorted order (score_leb_total task.region) (score_leb_trans task.region) found)
          (sorted-All order _ found (All-mono found (λ n ((p, t), f). (p, ground arith)) each))
          (λ R rs.
            All-mono nodes (λ n later both. later (ground arith) (ground arith))
              (All-of_keep_if _ (λ (n : NodeRow). str_eq n.tenant_id task.tenant_id) nodes
                (All-of_keep_if R (can_run parse_int task) (ours nodes)
                  (unsorted-All order R found rs))))

  -- For a task whose token is accepted, where the labels of the nodes can be read: `assign` answers, with
  -- no node exactly where none of those that the federation lists may run the task, and else with one
  -- that may, to which the order of the scores gives no other before it. Whatever holds of every node
  -- that is listed holds of it.
  pub assign_lem :
      (co : Codecs) (secret : String) (P : NodeRow → Type 0) (nodes : List NodeRow)
      (claims : Payload)
      → verify_task_token co secret task ≡ ok claims
      → All (IsReadable parse_int task) (ours nodes)
      → All P nodes
      → (a : Assignment) × (assign co secret parse_int task (some nodes) ≡ ok a)
        × IsChoice P nodes a
  unfolding assign fetch_nodes
  assign_lem co secret P nodes claims verified readable h = (
    assignment_of (sorted (score_leb task.region) (keep_if (can_run parse_int task) (ours nodes))),
    rw (verified, assign) (rw (candidates_of_readable parse_int task (ours nodes) readable) refl),
    choice P nodes h,
  )

module _ (co : Codecs) (secret : String) where
  -- A token for a node, whoever made it with the secret, is accepted for exactly the tasks of the tenant
  -- and the region of the node, also after the time at which it runs out.
  pub verify-issued :
      (n : NodeRegister) (digest : String) (issued_at expires_at : ℤ) (task : Task)
      → Lawful co secret (claims_for n digest issued_at expires_at)
      → is_ok (
          verify_task_token co secret (record task {
            task_token = encode_signed_claims co secret (claims_for n digest issued_at expires_at);
          }))
        ≡ (str_eq n.tenant_id task.tenant_id && str_eq n.region task.region)
  unfolding verify_task_token check_claims lookup
  verify-issued n digest issued_at expires_at task laws =
      let (q, decoded, same) =
        decode-encode co secret (claims_for n digest issued_at expires_at) laws in
      let tenant = same "tenant_id" in
      let region = same "region" in
      rw (decoded, verify_task_token) (rw tenant (rw region (ground arith)))

  module _ (sound : (b c : co.Bytes) → co.compare_digest b c ≡ true → b ≡ c) where
    checked :
        (r : Outcome (co.Bytes × co.Bytes)) (x : Error)
        → is_ok (
            r >>= λ parts.
            raise_if (not (co.compare_digest parts.1 (co.hmac secret parts.0))) x
            >> claims_of (co.loads parts.0))
          ≡ true
        → (payload : co.Bytes) × (r ≡ ok (payload, co.hmac secret payload))
    checked (raised e) x h = cc
    checked (ok (b, sign)) x h = elim (Bool-cases (co.compare_digest sign (co.hmac secret b))) [
      | inl e ↦ (b, ap (λ t. ok (b, t)) (sound sign (co.hmac secret b) e))
      | inr e ↦ let no : false ≡ true = rw e at h in cc
    ]

    -- Whatever token is accepted for a task carries the digest of its payload under the secret.
    pub verify_signed :
        (task : Task)
        → is_ok (verify_task_token co secret task) ≡ true
        → (payload : co.Bytes) × (decode_parts co task.task_token
            ≡ ok (payload, co.hmac secret payload))
    unfolding verify_task_token decode_task_token
    verify_signed task h =
        let (c, decoded, _) =
          ok_of_bind (decode_task_token co secret task.task_token) (check_claims task) h in
        checked _ _ (ap is_ok decoded)
