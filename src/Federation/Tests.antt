-- ===== src/Federation/Tests.antt =====
-- The theorems on the federation and the scheduler at concrete inputs.
use zlttbots.Prelude.{
  ℕ, suc, ◌≡◌, refl, true, ◌==◌, ==_iff, String, str_eq, Option, none, some, [], ◌∷◌, ok, is_ok,
  if◌then◌else◌, string_eq, raised, type_error,
}
use zlttbots.Prelude.Int.{ℤ, pos}
use zlttbots.Prelude.Dict.{lookup}
use zlttbots.Prelude.Value.{Payload}
use zlttbots.Federation.Tokens.{
  Codecs, object, encode_signed_claims, decode_parts, split_dot, decode_task_token,
}
use zlttbots.Federation.Tokens.Laws.{Lawful}
use zlttbots.Federation.Registry.{NodeRegister, NodeRow, claims_for, row_of, register}
use zlttbots.Federation.Registry.Laws.{register_lem, kept}
use zlttbots.Federation.Scheduler.{
  Task, Assignment, assign, verify_task_token, latency_of, is_candidate, check_claims,
}
use zlttbots.Federation.Scheduler.Laws.{assign_lem, IsChoice, verify-issued, verify_signed}

abbrev laptop : NodeRegister
laptop = record {
  node_id = "laptop-1";
  region = "eu";
  capacity = pos 4;
  tenant_id = "acme";
  labels = ("latency_ms", "9") ∷ [];
  attestation = "sealed-by-the-vendor";
  consent_approved = true;
}

abbrev laptop_claims : Payload
laptop_claims = claims_for laptop "d" (pos 0) (pos 60)

-- the two byte strings of one token, by number
abbrev codecs : Codecs
codecs = record {
  Bytes = ℕ;
  dumps = λ p. 0;
  loads = λ b. object laptop_claims;
  b64encode = λ b. if b == 0 then "A" else "B";
  b64decode = λ s. if str_eq s "A" then some 0 else some 1;
  hmac = λ secret b. suc b;
  compare_digest = λ b c. b == c;
}

abbrev task : Task
task = record {
  task_id = "t1";
  required_capacity = pos 2;
  region = "eu";
  tenant_id = "acme";
  max_latency_ms = pos 20;
  task_token = "A.B";
}

abbrev lawful : Lawful codecs "secret" laptop_claims
lawful = record {
  payload_decoded = refl;
  payload_no_dot = refl;
  signature_decoded = refl;
  signature_equal = refl;
  loaded = (laptop_claims, refl, λ k. refl);
}

verify-issued_example :
    is_ok (
      verify_task_token codecs "secret"
        (record task { task_token = encode_signed_claims codecs "secret" laptop_claims }))
    ≡ true
verify-issued_example = verify-issued codecs "secret" laptop "d" (pos 0) (pos 60) task lawful

verify_signed_example : (payload : ℕ) × (decode_parts codecs "A.B" ≡ ok (payload, suc payload))
unfolding verify_task_token decode_task_token decode_parts split_dot check_claims lookup
verify_signed_example = verify_signed codecs "secret" (λ b c. (==_iff b c).0) task refl

abbrev parse_nine : String → Option ℤ
parse_nine s = if str_eq s "9" then some (pos 9) else none

abbrev laptop_row : NodeRow
laptop_row = row_of laptop "d" (pos 0) (pos 60)

abbrev server_row : NodeRow
server_row = record laptop_row { node_id = "server-1"; capacity = pos 8; labels = [] }

assign_lem_example :
    (a : Assignment) × (assign codecs "secret" parse_nine task (some (laptop_row ∷ server_row ∷ []))
      ≡ ok a)
    × IsChoice parse_nine task (λ n. n.region ≡ "eu") (laptop_row ∷ server_row ∷ []) a
unfolding verify_task_token decode_task_token decode_parts split_dot check_claims lookup
    is_candidate latency_of
assign_lem_example =
    assign_lem parse_nine task codecs "secret" (λ n. n.region ≡ "eu") (laptop_row ∷ server_row ∷ [])
      laptop_claims refl (refl, (refl, tt)) (refl, (refl, tt))

register_lem_example :
    ((register codecs "secret"
        (λ s. s)
        (pos 60)
        true
        laptop
        (pos 0)
        (record { nodes = []; audit = [] })).0
      ≡ raised (type_error "got multiple values for keyword argument"))
    × (lookup "laptop-1"
          (register codecs "secret"
            (λ s. s)
            (pos 60)
            true
            laptop
            (pos 0)
            (record { nodes = []; audit = [] })).1.nodes
        ≡ kept codecs "secret"
            (λ s. s)
            (pos 60)
            true
            laptop
            (pos 0)
            "laptop-1"
            (record { nodes = []; audit = [] }))
register_lem_example =
    register_lem codecs "secret" (λ s. s) (pos 60) true laptop (pos 0)
      (record { nodes = []; audit = [] }) "laptop-1"
