-- ===== src/Payment/Webhook/Laws.antt =====
-- What a delivery of an event writes.
use zlttbots.Prelude.{
  ℕ, ◌+◌, ◌≡◌, refl, ◌∙◌, ap, Bool, true, String, str_eq, eq_refl, List, [], ◌∷◌, ◌++◌, any_of,
  length, length-append, Bool-cases, inl, inr, arith,
}
use zlttbots.Payment.Webhook.{StripeEvent, Database, insert_payment_event, persist_order}

any_of_last :
    {A : Type 0} (p : A → Bool) (xs : List A) (x : A) → p x ≡ true → any_of p (xs ++ x ∷ []) ≡ true
any_of_last p [] x h = ground (arith, h)
any_of_last p (y ∷ ys) x h = ground (arith, any_of_last p ys x h)

module _ {Amount : Type 0} where
  known_after :
      (event_id : String) (now : ℕ) (db : Database Amount)
      → any_of
          (λ (row : String × ℕ). str_eq row.0 event_id)
          (insert_payment_event event_id now db).payment_events
        ≡ true
  unfolding insert_payment_event
  known_after event_id now db =
      elim (Bool-cases (any_of (λ (row : String × ℕ). str_eq row.0 event_id) db.payment_events)) [
        | inl e ↦ rw e e
        | inr e ↦ rw e (
            any_of_last (λ (row : String × ℕ). str_eq row.0 event_id) db.payment_events
              (event_id, now) (eq_refl event_id))
      ]

  known_stays :
      (event_id : String) (later : ℕ) (db : Database Amount)
      → any_of (λ (row : String × ℕ). str_eq row.0 event_id) db.payment_events ≡ true
      → insert_payment_event event_id later db ≡ db
  unfolding insert_payment_event
  known_stays event_id later db h = rw h refl

  -- An event that is delivered twice is kept as one event and as two orders.
  pub redelivered :
      (e : StripeEvent Amount) (now ts later ts' : ℕ) (db : Database Amount)
      → let once = persist_order e now ts db in
        let twice = persist_order e later ts' once in
        (twice.payment_events ≡ once.payment_events)
        × (length twice.orders ≡ length once.orders + 1)
  unfolding persist_order
  redelivered e now ts later ts' db =
      let once = persist_order e now ts db in
      let same = known_stays e.event_id later once (known_after e.event_id now db) in
      (
        ap (λ d. d.payment_events) same,
        length-append (insert_payment_event e.event_id later once).orders (
              record {
                campaign_id = e.campaign_id;
                click_id = e.click_id;
                amount = e.amount;
                ts = ts';
              }
              ∷ [])
            ∙ ap (λ d. length d.orders + 1) same,
      )
