-- ===== src/Egress/Client.antt =====
-- `SafeHttpClient` and its `post`. The world is what a request changes; the delays slept are kept in a
-- list, and a delay is a value of a type of its own.
pub mod Laws
use zlttbots.Prelude.{
  ℕ, zero, suc, ◌+◌, ◌-◌, Bool, true, false, String, Option, none, some, List, [], ◌∷◌, ◌++◌, map,
  Outcome, ok, raised, value_error, runtime_error, Error, raise_if, ◌>>◌, ◌>>=◌, concat,
  if◌then◌else◌,
}
use zlttbots.Prelude.Int.{ℤ, pos, pos_part, leb_ℤ, ltb_ℤ, show_ℤ}
use zlttbots.Egress.Url.{Parsers, validate_url}

-- what the code does with a delay
pub record Backoff : Type 1 where
  pub Delay : Type 0
  pub is_negative : Delay → Bool
  -- `backoff * 2 ** n`
  pub doubled : Delay → ℕ → Delay

-- a response with its status, or a RequestException
pub data Reply : Type 0 where
  response : ℤ → Reply
  failed : Reply

module _ (bo : Backoff) where
  pub record SafeHttpClient : Type 0 where
    pub timeout : ℤ
    pub retries : ℤ
    pub backoff : bo.Delay
    pub allowed_hosts : Option (List String)

-- `{host.lower() for host in allowed_hosts} if allowed_hosts else None`
unfoldable pub lower_hosts : (String → String) → Option (List String) → Option (List String)
lower_hosts lower none = none
lower_hosts lower (some []) = none
lower_hosts lower (some (h ∷ hs)) = some (map lower (h ∷ hs))

module _ {bo : Backoff} where
  -- `SafeHttpClient(timeout, retries, backoff, allowed_hosts)`
  unfoldable pub new_client :
      Parsers → ℤ → ℤ → bo.Delay → Option (List String) → Outcome (SafeHttpClient bo)
  unfolding lower_hosts
  new_client p timeout retries backoff allowed_hosts = do
    raise_if (leb_ℤ timeout (pos 0)) (value_error "timeout must be > 0")
    raise_if (leb_ℤ retries (pos 0)) (value_error "retries must be > 0")
    raise_if (bo.is_negative backoff) (value_error "backoff must be >= 0")
    ok (record {
      timeout = timeout;
      retries = retries;
      backoff = backoff;
      allowed_hosts = lower_hosts p.lower allowed_hosts;
    })

-- the error behind the loop
abbrev pub exhausted : String → Option ℤ → Error
exhausted url none = runtime_error (concat ("request failed after retries: " ∷ url ∷ []))
exhausted url (some status) =
    runtime_error
      (concat ("request failed after retries with status " ∷ show_ℤ status ∷ ": " ∷ url ∷ []))

-- `last_response` after a reply
abbrev pub last_after : Option ℤ → Reply → Option ℤ
last_after last (response status) = some status
last_after last failed = last

-- the reply that the loop returns at once
abbrev pub is_final : Reply → Bool
is_final (response status) = ltb_ℤ status (pos 500)
is_final failed = false

module _ {bo : Backoff} {W : Type 0} (client : SafeHttpClient bo) (send : W → Reply × W)
    (url : String) where
  -- `time.sleep`, if another attempt follows
  abbrev pub sleep_before : ℕ → List bo.Delay → List bo.Delay
  sleep_before attempt slept =
      if ltb_ℤ (pos attempt) client.retries
      then slept ++ bo.doubled client.backoff (attempt - 1) ∷ []
      else slept

  -- the loop: the attempts left, the number of the next one, the last response, the delays slept
  unfoldable pub attempts : ℕ → ℕ → Option ℤ → List bo.Delay → W → Outcome Reply × List bo.Delay × W
  attempts zero attempt last slept w = (raised (exhausted url last), slept, w)
  attempts (suc left) attempt last slept w =
      let (reply, w') = send w in
      let again =
        attempts left (attempt + 1) (last_after last reply) (sleep_before attempt slept) w' in
      if is_final reply then (ok reply, slept, w') else again

  unfoldable pub post : Parsers → W → Outcome Reply × List bo.Delay × W
  unfolding attempts
  post p w = elim (validate_url p client.allowed_hosts url) [
    | raised e ↦ (raised e, [], w)
    | ok _ ↦ attempts (pos_part client.retries) 1 none [] w
  ]
