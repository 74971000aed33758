-- ===== src/Federation/Registry/Laws.antt =====
-- What a registration leaves behind, and what it answers.
use zlttbots.Prelude.{
  ◌≡◌, refl, Bool, ◌&&◌, String, str_eq, string_eq, Option, some, raised, type_error, Bool-cases,
  inl, inr, if◌then◌else◌, Error, not, http_error,
}
use zlttbots.Prelude.Int.{ℤ, ◌+ℤ◌}
use zlttbots.Prelude.Dict.{lookup, lookup-insert}
use zlttbots.Federation.Tokens.{Codecs}
use zlttbots.Federation.Registry.{
  NodeRegister, NodeRow, Federation, row_of, merge_keywords, store_node, answer, register,
}

module _ (co : Codecs) (secret : String) (sha256_hex : String → String) (ttl : ℤ) where
  answer_raises :
      (n : NodeRegister) (now : ℤ)
      → answer co secret sha256_hex ttl n now
        ≡ raised (type_error "got multiple values for keyword argument")
  unfolding answer merge_keywords
  answer_raises n now = refl

  -- the row of a node in the table after a registration
  abbrev pub kept : Bool → NodeRegister → ℤ → String → Federation → Option NodeRow
  kept database_ok n now id f =
      if n.consent_approved && database_ok && str_eq n.node_id id
      then some (row_of n (sha256_hex n.attestation) now (now +ℤ ttl))
      else lookup id f.nodes

  -- the error that a registration comes to
  abbrev pub refusal : Bool → NodeRegister → Error
  refusal database_ok n =
      if not n.consent_approved
      then http_error 400 "node consent approval required"
      else if not database_ok
      then http_error 503 "database unavailable"
      else type_error "got multiple values for keyword argument"

  -- `register` never answers: with consent and a database it writes the row of the node, under the
  -- digest of its attestation and until its token runs out, and then raises TypeError, since the keyword
  -- attestation is given twice; without consent it raises the error 400, and without a database the error
  -- 503, and leaves the table. No other row changes.
  pub register_lem :
      (database_ok : Bool) (n : NodeRegister) (now : ℤ) (f : Federation) (id : String)
      → ((register co secret sha256_hex ttl database_ok n now f).0 ≡ raised (refusal database_ok n))
        × (lookup id (register co secret sha256_hex ttl database_ok n now f).1.nodes
            ≡ kept database_ok n now id f)
  unfolding register store_node
  register_lem database_ok n now f id = elim (Bool-cases n.consent_approved) [
    | inr e ↦ rw e (refl, refl)
    | inl e ↦ rw e (elim (Bool-cases database_ok) [
      | inr d ↦ rw d (refl, refl)
      | inl d ↦ rw d (answer_raises n now, lookup-insert n.node_id id _ f.nodes)
    ])
  ]
