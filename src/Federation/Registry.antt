-- ===== src/Federation/Registry.antt =====
-- services/federation/src/main.py: settings, the table of nodes, its listing, and registration. The
-- database is there or not; the hash of a text and the number that a text denotes are parameters.
pub mod Laws
use zlttbots.Prelude.{
  ℕ, zero, suc, ◌+◌, Bool, true, false, not, String, string_eq, Option, none, some, List, [], ◌∷◌,
  ◌++◌, keep_if, length, map, any_of, str_eq, Outcome, ok, raised, Error, http_error, runtime_error,
  type_error, raise_if, if◌then◌else◌, ◌>>◌, ◌>>=◌,
}
use zlttbots.Prelude.Int.{ℤ, pos, leb_ℤ, max_ℤ, ◌+ℤ◌}
use zlttbots.Prelude.Dict.{Dict, insert, values}
use zlttbots.Prelude.Sorting.{sorted}
use zlttbots.Prelude.Value.{Payload, text, int}
use zlttbots.Federation.Tokens.{Codecs, encode_signed_claims}

-- `_safe_int_env`, for the value of the variable and what `int` makes of a text
unfoldable pub safe_int_env : (String → Option ℤ) → Option String → ℤ → ℤ
safe_int_env parse none default = default
safe_int_env parse (some raw) default = elim (parse raw) [ none ↦ default | some n ↦ n ]

abbrev pub token_ttl_seconds : (String → Option ℤ) → Option String → ℤ
token_ttl_seconds parse raw = max_ℤ (pos 60) (safe_int_env parse raw (pos 3600))

abbrev pub startup_db_max_attempts : (String → Option ℤ) → Option String → ℤ
startup_db_max_attempts parse raw = max_ℤ (pos 1) (safe_int_env parse raw (pos 15))

pub record NodeRegister : Type 0 where
  pub node_id : String
  pub region : String
  pub capacity : ℤ
  pub tenant_id : String
  pub labels : Dict String String
  pub attestation : String
  pub consent_approved : Bool

-- a row of federation_nodes, which keeps the digest of the attestation
pub record NodeRow : Type 0 where
  pub node_id : String
  pub tenant_id : String
  pub region : String
  pub capacity : ℤ
  pub labels : Dict String String
  pub attestation : String
  pub consent_approved : Bool
  pub registered_at : ℤ
  pub expires_at : ℤ

pub record AuditEntry : Type 0 where
  pub event : String
  pub row : NodeRow
  pub timestamp : ℤ

-- the rows of the table by their primary key, and the lines of the audit log
pub record Federation : Type 0 where
  pub nodes : Dict String NodeRow
  pub audit : List AuditEntry

unfoldable pub ensure_schema : {W : Type 0} → (W → Bool × W) → W → Bool × W
ensure_schema connect w = connect w

-- one round of the loop of `startup` after another, with the seconds slept
unfoldable pub startup_rounds :
    {W : Type 0} → (W → Bool × W) → ℕ → ℕ → W → Outcome (Unit {0}) × ℕ × W
unfolding ensure_schema
startup_rounds connect zero slept w =
    (raised (runtime_error "database unavailable during startup"), slept, w)
startup_rounds connect (suc rounds) slept w =
    let (ready, w') = ensure_schema connect w in
    let rest = startup_rounds connect rounds (if is_last rounds then slept else slept + 1) w' in
    if ready then (ok tt, slept, w') else rest
  where
    is_last : ℕ → Bool
    is_last zero = true
    is_last (suc n) = false

-- the status, and the check of the database
unfoldable pub healthz : Bool → String × Bool
healthz database_ok = (if database_ok then "ok" else "degraded", database_ok)

abbrev pub unavailable {ℓ} : {A : Type ℓ} → Outcome A
unavailable = raised (http_error 503 "database unavailable")

-- `ORDER BY registered_at DESC`; the database may put rows of the same second in any order, here they
-- keep that of the table
abbrev pub newer : NodeRow → NodeRow → Bool
newer a b = leb_ℤ b.registered_at a.registered_at

unfoldable pub list_nodes : Bool → ℤ → Federation → Outcome (List NodeRow)
list_nodes database_ok now f =
    if database_ok
    then ok (sorted newer (keep_if (λ (r : NodeRow). leb_ℤ now r.expires_at) (values f.nodes)))
    else unavailable

abbrev pub claims_for : NodeRegister → String → ℤ → ℤ → Payload
claims_for n digest issued_at expires_at =
    ("node_id", text n.node_id)
    ∷ ("tenant_id", text n.tenant_id)
    ∷ ("region", text n.region)
    ∷ ("attestation_sha256", text digest)
    ∷ ("iat", int issued_at)
    ∷ ("exp", int expires_at)
    ∷ ("token_type", text "federation-node")
    ∷ []

abbrev pub row_of : NodeRegister → String → ℤ → ℤ → NodeRow
row_of n digest issued_at expires_at = record {
  node_id = n.node_id;
  tenant_id = n.tenant_id;
  region = n.region;
  capacity = n.capacity;
  labels = n.labels;
  attestation = digest;
  consent_approved = n.consent_approved;
  registered_at = issued_at;
  expires_at = expires_at;
}

-- the keywords of a call; Python raises when one is given twice
unfoldable pub merge_keywords : List String → List String → Outcome (Unit {0})
merge_keywords given [] = ok tt
merge_keywords given (k ∷ ks) =
    raise_if (any_of (str_eq k) given) (type_error "got multiple values for keyword argument")
    >> merge_keywords given ks

-- `node.model_dump()` has the fields of `NodeRegister`
abbrev pub dumped_fields : List String
dumped_fields =
    "node_id" ∷ "region" ∷ "capacity" ∷ "tenant_id" ∷ "labels" ∷ "attestation" ∷ "consent_approved"
    ∷ []

pub record Registration : Type 0 where
  pub token : String
  pub node : NodeRow

module _ (co : Codecs) (secret : String) (sha256_hex : String → String) (ttl : ℤ) where
  -- the rows and the log after the upsert is committed
  unfoldable pub store_node : NodeRegister → ℤ → Federation → Federation
  store_node n now f =
      let row = row_of n (sha256_hex n.attestation) now (now +ℤ ttl) in
      record {
        nodes = insert n.node_id row f.nodes;
        audit = f.audit ++ record { event = "node.registered"; row = row; timestamp = now } ∷ [];
      }

  -- the answer: `NodeRecord(**node.model_dump(), attestation=…, registered_at=…, expires_at=…)`
  unfoldable pub answer : NodeRegister → ℤ → Outcome Registration
  unfolding merge_keywords
  answer n now =
      let digest = sha256_hex n.attestation in
      merge_keywords dumped_fields ("attestation" ∷ "registered_at" ∷ "expires_at" ∷ [])
      >> ok (record {
        token = encode_signed_claims co secret (claims_for n digest now (now +ℤ ttl));
        node = row_of n digest now (now +ℤ ttl);
      })

  -- with whether the database takes the upsert
  unfoldable pub register : Bool → NodeRegister → ℤ → Federation → Outcome Registration × Federation
  unfolding store_node answer
  register database_ok n now f =
      if not n.consent_approved
      then (raised (http_error 400 "node consent approval required"), f)
      else if database_ok
      then (answer n now, store_node n now f)
      else (unavailable, f)
