-- ===== src/Federation/Scheduler/Choice.antt =====
-- The order of the nodes, and which of them are candidates.
use zlttbots.Prelude.Dict.{Dict, lookup, get_or}
use zlttbots.Prelude.Dict.{Dict, lookup, get_or}
use zlttbots.Prelude.{
  if◌then◌else◌, Option-cases, ok_of_bind, ◌>>=◌, none, some, Option, ◌≡◌, refl, ◌⊎◌, Bool, true,
  false, String, text_leb_total, text_leb_trans, Option, List, [], ◌∷◌, All, keep_if, Outcome, ok,
  raised, is_ok, arith, Outcome-cases, inl, inr, ◌&&◌, Bool-cases, str_eq, string_eq, ap, ◌∙◌, sym,
}
use zlttbots.Prelude.Int.{ℤ, leb_ℤ}
use zlttbots.Federation.Registry.{NodeRow}
use zlttbots.Federation.Scheduler.{
  latency_error, latency_of, Task, is_candidate, candidates_of, score_leb, latency_of,
}

pub score_leb_total :
    (region : String) (a b : NodeRow)
    → (score_leb region a b ≡ true) ⊎ (score_leb region b a ≡ true)
unfolding score_leb
score_leb_total region a b = let ids = text_leb_total a.node_id b.node_id in ground arith

pub score_leb_trans :
    (region : String) (a b c : NodeRow)
    → score_leb region a b ≡ true
    → score_leb region b c ≡ true
    → score_leb region a c ≡ true
unfolding score_leb
score_leb_trans region a b c p q =
    let ids = text_leb_trans a.node_id b.node_id c.node_id in ground arith

module _ (parse_int : String → Option ℤ) (task : Task) where
  abbrev pub is_true : Outcome Bool → Bool
  is_true (ok b) = b
  is_true (raised e) = false

  -- the nodes whose condition holds
  abbrev pub fits : NodeRow → Bool
  fits n = is_true (is_candidate parse_int task n)

  -- the latency that a node states, where it can be read
  abbrev pub stated_latency : NodeRow → ℤ
  stated_latency n = elim (lookup "latency_ms" n.labels) [
    | none ↦ task.max_latency_ms
    | some s ↦ elim (parse_int s) [ none ↦ task.max_latency_ms | some ms ↦ ms ]
  ]

  -- a node with the capacity, that is near enough and does not say that it is not ready
  abbrev pub can_run : NodeRow → Bool
  can_run n =
      leb_ℤ task.required_capacity n.capacity
      && leb_ℤ (stated_latency n) task.max_latency_ms
      && elim (lookup "status" n.labels) [ none ↦ true | some s ↦ str_eq s "ready" ]

  -- the condition does not raise
  abbrev pub IsReadable : NodeRow → Type 0
  IsReadable n = is_ok (is_candidate parse_int task n) ≡ true

  unreadable :
      (n : NodeRow) (s : String)
      → lookup "latency_ms" n.labels ≡ some s
      → parse_int s ≡ none
      → latency_of parse_int task n ≡ raised latency_error
  unfolding latency_of
  unreadable n s e d = rw (e, latency_of) (rw d refl)

  latency_read :
      (n : NodeRow)
      → is_ok (latency_of parse_int task n) ≡ true
      → latency_of parse_int task n ≡ ok (stated_latency n)
  unfolding latency_of
  latency_read n h = elim (Option-cases (lookup "latency_ms" n.labels)) [
    | inl e ↦ rw (e, latency_of, stated_latency) refl
    | inr (s, e) ↦ elim (Option-cases (parse_int s)) [
      | inl d ↦ let no : false ≡ true = sym (ap is_ok (unreadable n s e d)) ∙ h in cc
      | inr (ms, d) ↦ rw (e, latency_of, stated_latency) (rw d refl)
    ]
  ]

  status_read :
      (d : Dict String String)
      → str_eq (get_or "ready" "status" d) "ready"
        ≡ elim (lookup "status" d) [ none ↦ true | some s ↦ str_eq s "ready" ]
  unfolding get_or
  status_read d = elim (Option-cases (lookup "status" d)) [
    | inl e ↦ rw (e, get_or) refl
    | inr (s, e) ↦ rw (e, get_or) refl
  ]

  candidate_with :
      (n : NodeRow)
      → leb_ℤ task.required_capacity n.capacity ≡ true
      → is_candidate parse_int task n ≡ (
          latency_of parse_int task n >>= λ ms.
          ok (leb_ℤ ms task.max_latency_ms && str_eq (get_or "ready" "status" n.labels) "ready"))
  unfolding is_candidate
  candidate_with n e = rw e refl

  pub fits_lem : (n : NodeRow) → IsReadable n → fits n ≡ can_run n
  unfolding is_candidate
  fits_lem n h = elim (Bool-cases (leb_ℤ task.required_capacity n.capacity)) [
    | inr e ↦ rw e refl
    | inl e ↦
        let split = candidate_with n e in
        let (ms, read, _) = ok_of_bind (latency_of parse_int task n) _ (rw split at h) in
        let stated = latency_read n (rw read refl) in
        ap is_true split ∙ rw stated (rw e (rw status_read refl))
  ]

  pub candidates_of_readable :
      (ns : List NodeRow)
      → All IsReadable ns
      → candidates_of parse_int task ns ≡ ok (keep_if can_run ns)
  unfolding candidates_of
  candidates_of_readable [] h = refl
  candidates_of_readable (n ∷ ns) (now, h) = elim (Outcome-cases (is_candidate parse_int task n)) [
    | inl (b, e) ↦
        let same : b ≡ can_run n = sym (ap is_true e) ∙ fits_lem n now in
        rw e (
          rw (candidates_of_readable ns h)
            (ap (λ c. ok (if c then n ∷ keep_if can_run ns else keep_if can_run ns)) same))
    | inr (x, e) ↦ absurd (ground arith)
  ]
