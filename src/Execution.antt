-- ===== src/Execution.antt =====
-- services/execution-engine/src/main.py: the token bucket before each request to the platform, for
-- settings that are not negative. Times are numbers; the tokens that come between two times, which the
-- code computes in floats, and the requests are parameters. The lock makes acquire_token one step.
pub mod Laws
mod Tests
use zlttbots.Prelude.{
  ℕ, zero, suc, ◌+◌, ◌-◌, min, ltb, ◌==◌, Bool, true, false, String, Option, none, some, List, [],
  ◌∷◌, Outcome, ok, raised, http_error, concat, if◌then◌else◌, leb,
}

pub record Bucket : Type 0 where
  pub max_tokens : ℕ
  pub tokens : ℕ
  pub last_refill : ℕ

pub record PublishRequest : Type 0 where
  pub campaign_id : String
  pub video_url : String
  pub caption : String
  pub destination_url : String

pub record PublishResponse : Type 0 where
  pub succeeded : Bool
  pub external_id : Option String
  pub status : String

-- what a request to the platform comes to: no answer, or a status code and the two keys that are read
pub data Reply : Type 0 where
  unreachable : Reply
  answered : ℕ → Option String → Option String → Reply

module _ (refill_between : ℕ → ℕ → ℕ) where
  -- the first half of `acquire_token`
  unfoldable pub refill : ℕ → Bucket → Bucket
  refill now b =
      let more = refill_between b.last_refill now in
      if ltb 0 more
      then record b { tokens = min b.max_tokens (b.tokens + more); last_refill = now }
      else b

  -- a token, or the answer 429
  unfoldable pub take_token : Bucket → Outcome (Unit {0}) × Bucket
  take_token b =
      if b.tokens == 0
      then (raised (http_error 429 "Rate limited"), b)
      else (ok tt, record b { tokens = b.tokens - 1 })

  unfoldable pub acquire_token : ℕ → Bucket → Outcome (Unit {0}) × Bucket
  unfolding refill take_token
  acquire_token now b = take_token (refill now b)

  -- `http_post`, behind the request
  unfoldable pub read_reply : Reply → Outcome (Option String × Option String)
  read_reply unreachable = raised (http_error 502 "no answer")
  read_reply (answered code id status) =
      if leb 400 code then raised (http_error 502 "Upstream error") else ok (id, status)

  abbrev pub response_of : Outcome (Option String × Option String) → Outcome PublishResponse
  response_of (raised e) = raised e
  response_of (ok (id, none)) =
      ok (record { succeeded = true; external_id = id; status = "submitted" })
  response_of (ok (id, some s)) = ok (record { succeeded = true; external_id = id; status = s })

  -- a request only goes out behind a token
  unfoldable pub publish_behind :
      (PublishRequest → Reply)
      → PublishRequest
      → Outcome (Unit {0}) × Bucket
      → Outcome PublishResponse × Bucket
  unfolding read_reply
  publish_behind post r (raised e, b) = (raised e, b)
  publish_behind post r (ok _, b) = (response_of (read_reply (post r)), b)

  unfoldable pub publish :
      (PublishRequest → Reply) → ℕ → PublishRequest → Bucket → Outcome PublishResponse × Bucket
  unfolding publish_behind acquire_token
  publish post now r b = publish_behind post r (acquire_token now b)

  -- requests at some times, one after the other: how many got a token, and the bucket after them
  unfoldable pub serve_all : List ℕ → Bucket → ℕ × Bucket
  unfolding acquire_token
  serve_all [] b = (0, b)
  serve_all (now ∷ times) b =
      let (result, b') = acquire_token now b in
      let (served, b'') = serve_all times b' in
      (elim result [ ok _ ↦ suc served | raised _ ↦ served ], b'')
