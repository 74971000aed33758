-- ===== src/Runtime/Queue.antt =====
-- enterprise_maturity/v3_runtime/queue_system.py. The payload is a parameter: the queue only moves it.
-- `_topics` is a defaultdict, so reading a topic creates it: every operation returns the queue.
pub mod Laws
use zlttbots.Prelude.{
  ℕ, zero, suc, String, List, [], ◌∷◌, ◌++◌, length, str_eq, string_eq, text_leb,
}
use zlttbots.Prelude.Int.{ℤ, pos, pos_part, min_ℤ}
use zlttbots.Prelude.Dict.{Dict, insert, get_or, keys}
use zlttbots.Prelude.Sorting.{sorted}

module _ (P : Type 0) where
  pub record QueueMessage : Type 0 where
    pub topic : String
    pub payload : P
    pub headers : Dict String String

module _ {P : Type 0} where
  -- `for _ in range(rounds): messages.append(topic_queue.popleft())`
  unfoldable pub drain :
      ℕ
      → List (QueueMessage P)
      → List (QueueMessage P)
      → List (QueueMessage P) × List (QueueMessage P)
  drain zero messages queue = (messages, queue)
  drain (suc rounds) messages [] = (messages, [])
  drain (suc rounds) messages (m ∷ queue) = drain rounds (messages ++ m ∷ []) queue

-- `CentralQueue._topics`
abbrev pub CentralQueue : Type 0 → Type 0
CentralQueue P = Dict String (List (QueueMessage P))

module _ {P : Type 0} where
  -- `self._topics[topic]`
  abbrev pub pending : CentralQueue P → String → List (QueueMessage P)
  pending q topic = get_or [] topic q

  unfoldable pub publish : QueueMessage P → CentralQueue P → CentralQueue P
  publish message q = insert message.topic (pending q message.topic ++ message ∷ []) q

  unfoldable pub consume : String → ℤ → CentralQueue P → List (QueueMessage P) × CentralQueue P
  consume topic batch_size q =
      let topic_queue = pending q topic in
      let (messages, rest) =
        drain (pos_part (min_ℤ batch_size (pos (length topic_queue)))) [] topic_queue in
      (messages, insert topic rest q)

  unfoldable pub depth : String → CentralQueue P → ℕ × CentralQueue P
  depth topic q = (length (pending q topic), insert topic (pending q topic) q)

  pub topics : CentralQueue P → List String
  topics q = sorted text_leb (keys q)
