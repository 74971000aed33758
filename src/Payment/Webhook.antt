-- ===== src/Payment/Webhook.antt =====
-- services/payment/webhook.py. The check of a signature by stripe, and the amount of a payment, are
-- parameters; the two tables are lists of rows.
pub mod Laws
use zlttbots.Prelude.{
  ℕ, Bool, true, false, not, ◌||◌, String, str_eq, Option, none, some, List, [], ◌∷◌, ◌++◌, any_of,
  Outcome, ok, raised, http_error, truthy, if◌then◌else◌,
}

-- an event that stripe has signed, by what is read of it, stripped
pub record StripeEvent (Amount : Type 0) : Type 0 where
  pub kind : String
  pub event_id : String
  pub campaign_id : String
  pub click_id : String
  pub amount : Amount

pub record Order (Amount : Type 0) : Type 0 where
  pub campaign_id : String
  pub click_id : String
  pub amount : Amount
  pub ts : ℕ

pub record Database (Amount : Type 0) : Type 0 where
  pub payment_events : List (String × ℕ)
  pub orders : List (Order Amount)

-- `has_driver` says whether psycopg2 can be imported; the call opens no connection
unfoldable pub default_db : String → Bool → Outcome (Unit {0})
default_db database_url has_driver =
    if not (truthy database_url)
    then raised (http_error 500 "database url not configured")
    else if not has_driver
    then raised (http_error 500 "psycopg2 is required")
    else ok tt

module _ {Amount : Type 0} where
  -- `construct` is none where stripe raises
  unfoldable pub verify_event :
      (String → String → String → Option (StripeEvent Amount))
      → String
      → String
      → Option String
      → Outcome (StripeEvent Amount)
  verify_event construct secret payload none = raised (http_error 400 "missing stripe-signature")
  verify_event construct secret payload (some signature) =
      if not (truthy signature)
      then raised (http_error 400 "missing stripe-signature")
      else if not (truthy secret)
      then raised (http_error 500 "stripe webhook secret not configured")
      else elim (construct payload signature secret) [
        | none ↦ raised (http_error 400 "invalid webhook signature")
        | some e ↦ ok e
      ]

  -- `INSERT … ON CONFLICT (event_id) DO NOTHING`
  unfoldable pub insert_payment_event : String → ℕ → Database Amount → Database Amount
  insert_payment_event event_id now db =
      if any_of (λ (row : String × ℕ). str_eq row.0 event_id) db.payment_events
      then db
      else record db { payment_events = db.payment_events ++ (event_id, now) ∷ [] }

  -- the clock is read for each insert
  unfoldable pub persist_order : StripeEvent Amount → ℕ → ℕ → Database Amount → Database Amount
  unfolding insert_payment_event
  persist_order e processed_at ts db =
      let db' = insert_payment_event e.event_id processed_at db in
      record db' {
        orders =
            db'.orders
            ++ record {
              campaign_id = e.campaign_id;
              click_id = e.click_id;
              amount = e.amount;
              ts = ts;
            }
              ∷ [];
      }

  unfoldable pub record_order :
      Outcome (Unit {0})
      → StripeEvent Amount
      → ℕ
      → ℕ
      → Database Amount
      → Outcome Bool × Database Amount
  unfolding persist_order
  record_order (raised x) e processed_at ts db = (raised x, db)
  record_order (ok _) e processed_at ts db = (ok true, persist_order e processed_at ts db)

  -- the part of `stripe_webhook` behind the check of the signature
  unfoldable pub handle_event :
      String
      → Bool
      → Outcome (StripeEvent Amount)
      → ℕ
      → ℕ
      → Database Amount
      → Outcome Bool × Database Amount
  unfolding default_db record_order
  handle_event database_url has_driver (raised x) processed_at ts db = (raised x, db)
  handle_event database_url has_driver (ok e) processed_at ts db =
      if not (str_eq e.kind "payment_intent.succeeded")
      then (ok true, db)
      else if not (truthy e.campaign_id) || not (truthy e.click_id) || not (truthy e.event_id)
      then (raised (http_error 422 "campaign_id, click_id, and event_id are required"), db)
      else record_order (default_db database_url has_driver) e processed_at ts db

  unfoldable pub stripe_webhook :
      (String → String → String → Option (StripeEvent Amount))
      → String
      → String
      → Bool
      → String
      → Option String
      → ℕ
      → ℕ
      → Database Amount
      → Outcome Bool × Database Amount
  unfolding verify_event handle_event
  stripe_webhook construct secret database_url has_driver payload signature processed_at ts db =
      handle_event database_url has_driver (verify_event construct secret payload signature)
        processed_at ts db
