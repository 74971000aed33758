-- ===== src/Deploy/Store/Laws.antt =====
-- The store of deployments: creation is idempotent, an event moves one deployment as the machine
-- allows or nothing at all, and the history of a record accounts for its state.
use mathlib.Core.List.{map-append}
use zlttbots.Prelude.{
  ◌≡◌, refl, ◌≢◌, inl, inr, String, none, some, List, [], ◌∷◌, ◌++◌, map, str_eq, string_eq, eq_iff,
  Option-cases, Bool-cases, ok, raised, key_error, subst, ◌∙◌,
}
use zlttbots.Prelude.Dict.{lookup, insert, lookup-insert, lookup-insert_self}
use zlttbots.Deploy.Machine.{DeploymentState, queued, transition, replay}
use zlttbots.Deploy.Machine.Laws.{replay-append}
use zlttbots.Deploy.Store.{
  DeploymentCreateRequest, DeploymentEventRequest, HistoryEntry, DeploymentRecord, DeploymentStore,
  empty_store, fetch, create, create_new, apply_event, apply_to, advance, advanced, new_record,
}

-- the events of a record, behind the entry of its creation
abbrev pub events : List HistoryEntry → List String
events [] = []
events (e ∷ es) = map (λ x. x.event_type) es

-- A record stands under its own id, and its state is the one that its events lead to from `queued`.
abbrev pub IsAccountable : String → DeploymentRecord → Type 0
IsAccountable id r =
    (r.deployment_id ≡ id) × (r.history ≢ []) × (replay queued (events r.history) ≡ some r.state)

pub record IsValid (s : DeploymentStore) : Type 0 where
  pub accountable :
      (id : String) (r : DeploymentRecord) → lookup id s.deployments ≡ some r → IsAccountable id r
  -- an idempotency key leads to a record
  pub indexed :
      (key id : String)
      → lookup key s.idempotency_index ≡ some id
      → (r : DeploymentRecord) × (lookup id s.deployments ≡ some r)

pub empty_store-IsValid : IsValid empty_store
unfolding lookup
empty_store-IsValid = record { accountable = λ id r h. cc; indexed = λ key id h. cc }

fetch_found :
    (id : String) (r : DeploymentRecord) (s : DeploymentStore)
    → lookup id s.deployments ≡ some r
    → fetch id s ≡ ok r
unfolding fetch
fetch_found id r s e = rw (e, fetch)

create_known :
    (lower : String → String) (id now known : String) (p : DeploymentCreateRequest)
    (s : DeploymentStore)
    → lookup p.idempotency_key s.idempotency_index ≡ some known
    → create lower id now p s ≡ (fetch known s, s)
unfolding create create_new
create_known lower id now known p s e = rw (e, create_new)

create_fresh :
    (lower : String → String) (id now : String) (p : DeploymentCreateRequest) (s : DeploymentStore)
    → lookup p.idempotency_key s.idempotency_index ≡ none
    → create lower id now p s ≡ (
      ok (new_record lower id now p),
      record {
        deployments = insert id (new_record lower id now p) s.deployments;
        idempotency_index = insert p.idempotency_key id s.idempotency_index;
      },
    )
unfolding create create_new
create_fresh lower id now p s e = rw (e, create_new)

-- Creation in a valid store succeeds, and creating again with the same key gives the same record and
-- changes nothing, whatever the new id, the time and the other fields of the second request.
pub create-create :
    (lower : String → String) (id id' now now' : String) (p p' : DeploymentCreateRequest)
    (s : DeploymentStore)
    → IsValid s
    → p'.idempotency_key ≡ p.idempotency_key
    → let (first, s') = create lower id now p s in
      (r : DeploymentRecord) × (first ≡ ok r) × (create lower id' now' p' s' ≡ (ok r, s'))
create-create lower id id' now now' p p' s valid same =
    elim (Option-cases (lookup p.idempotency_key s.idempotency_index)) [
      | inl fresh ↦
          let r = new_record lower id now p in
          let s' : DeploymentStore = record {
            deployments = insert id r s.deployments;
            idempotency_index = insert p.idempotency_key id s.idempotency_index;
          } in
          let found : fetch id s' ≡ ok r =
            fetch_found id r s' (lookup-insert_self id r s.deployments) in
          let again : create lower id' now' p' s' ≡ (fetch id s', s') =
            create_known lower id' now' id p' s'
              (rw same (lookup-insert_self p.idempotency_key id s.idempotency_index)) in
          rw (create_fresh lower id now p s fresh) (r, refl, rw (again, found))
      | inr (known, e) ↦
          let (r, there) = valid.indexed p.idempotency_key known e in
          let found = fetch_found known r s there in
          rw (create_known lower id now known p s e)
            (r, found, rw (create_known lower id' now' known p' s (rw same e), found))
    ]

-- A new record accounts for itself.
new_record-IsAccountable :
    (lower : String → String) (id now : String) (p : DeploymentCreateRequest)
    → IsAccountable id (new_record lower id now p)
unfolding replay
new_record-IsAccountable lower id now p = (refl, (λ e. cc), refl)

insert-IsAccountable :
    (s : DeploymentStore) (id : String) (r : DeploymentRecord)
    → IsValid s
    → IsAccountable id r
    → (j : String) (q : DeploymentRecord) → lookup j (insert id r s.deployments) ≡ some q
    → IsAccountable j q
insert-IsAccountable s id r valid h j q e = elim (Bool-cases (str_eq id j)) [
  | inl same ↦
      let there : lookup j (insert id r s.deployments) ≡ some r = rw (lookup-insert, same) in
      let it : r ≡ q = cc in subst (λ x. IsAccountable j x) it (rw (← (eq_iff id j).0 same) h)
  | inr other ↦ valid.accountable j q (rw (lookup-insert, other) at e)
]

still_there :
    (s : DeploymentStore) (id : String) (r : DeploymentRecord) (j : String)
    → (q : DeploymentRecord) × (lookup j s.deployments ≡ some q)
    → (q : DeploymentRecord) × (lookup j (insert id r s.deployments) ≡ some q)
still_there s id r j (q, e) = elim (Bool-cases (str_eq id j)) [
  | inl same ↦ (r, rw (lookup-insert, same))
  | inr other ↦ (q, rw (lookup-insert, other) e)
]

-- Creation keeps the store valid, whatever the new id.
pub create-IsValid :
    (lower : String → String) (id now : String) (p : DeploymentCreateRequest) (s : DeploymentStore)
    → IsValid s
    → IsValid (create lower id now p s).1
create-IsValid lower id now p s valid =
    elim (Option-cases (lookup p.idempotency_key s.idempotency_index)) [
      | inl fresh ↦
          let r = new_record lower id now p in
          rw (create_fresh lower id now p s fresh) (record {
            accountable =
                insert-IsAccountable s id r valid (new_record-IsAccountable lower id now p);
            indexed = λ key j e. elim (Bool-cases (str_eq p.idempotency_key key)) [
              | inl same ↦
                  let there : lookup key (insert p.idempotency_key id s.idempotency_index)
                      ≡ some id =
                    rw (lookup-insert, same) in
                  let it : id ≡ j = cc in
                  (
                    r,
                    subst (λ k. lookup k (insert id r s.deployments) ≡ some r) it
                        (lookup-insert_self id r s.deployments),
                  )
              | inr other ↦
                  still_there s id r j (valid.indexed key j (rw (lookup-insert, other) at e))
            ];
          })
      | inr (known, e) ↦ rw (create_known lower id now known p s e) valid
    ]

append_not_empty : (h : List HistoryEntry) (e : HistoryEntry) → h ++ e ∷ [] ≢ []
append_not_empty [] e q = cc
append_not_empty (x ∷ xs) e q = cc

events-append :
    (h : List HistoryEntry) (e : HistoryEntry)
    → h ≢ []
    → events (h ++ e ∷ []) ≡ events h ++ e.event_type ∷ []
events-append [] e some_entry = absurd (some_entry refl)
events-append (x ∷ xs) e some_entry = map-append (λ (x : HistoryEntry). x.event_type) xs (e ∷ [])

advanced-IsAccountable :
    (now id : String) (p : DeploymentEventRequest) (r : DeploymentRecord) (t : DeploymentState)
    → IsAccountable id r
    → transition r.state p.event_type ≡ some t
    → IsAccountable id (advanced now p t r)
advanced-IsAccountable now id p r t (own, some_entry, run) goes = (
  own,
  append_not_empty r.history _,
  rw (events-append r.history _ some_entry)
      (replay-append queued r.state (events r.history) p.event_type run ∙ goes),
)

pub apply_unknown :
    (now : String) (p : DeploymentEventRequest) (s : DeploymentStore)
    → lookup p.deployment_id s.deployments ≡ none
    → apply_event now p s ≡ (raised (key_error "deployment not found"), s)
unfolding apply_event apply_to
apply_unknown now p s e = rw (e, apply_to)

pub apply_known :
    (now : String) (p : DeploymentEventRequest) (r : DeploymentRecord) (s : DeploymentStore)
    → lookup p.deployment_id s.deployments ≡ some r
    → apply_event now p s ≡ advance now p r (transition r.state p.event_type) s
unfolding apply_event apply_to
apply_known now p r s e = rw (e, apply_to)

-- An event keeps the store valid, known or not, allowed or not.
pub apply_event-IsValid :
    (now : String) (p : DeploymentEventRequest) (s : DeploymentStore)
    → IsValid s
    → IsValid (apply_event now p s).1
unfolding advance
apply_event-IsValid now p s valid = elim (Option-cases (lookup p.deployment_id s.deployments)) [
  | inl unknown ↦ rw (apply_unknown now p s unknown) valid
  | inr (r, e) ↦
      rw (apply_known now p r s e) (elim (Option-cases (transition r.state p.event_type)) [
        | inl stuck ↦ rw (stuck, advance) valid
        | inr (t, goes) ↦
            rw (goes, advance)
              (record {
                accountable = insert-IsAccountable s p.deployment_id (advanced now p t r) valid (
                    advanced-IsAccountable now p.deployment_id p r t
                      (valid.accountable p.deployment_id r e) goes);
                indexed = λ key j f.
                    still_there s p.deployment_id (advanced now p t r) j (valid.indexed key j f);
              })
      ])
]
