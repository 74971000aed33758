-- ===== src/Runtime/Queue/Laws.antt =====
-- What the central queue promises: messages of one topic leave in the order in which they came, none
-- is lost or doubled, and topics do not disturb one another.
use zlttbots.Prelude.{
  ℕ, zero, suc, min, String, ◌≡◌, ◌≢◌, List, [], ◌∷◌, ◌++◌, length, take, drop, take-append-drop,
  length-take, str_eq, string_eq, arith, if◌then◌else◌, keep_if, Bool-cases, inl, ◌≤◌, eq_iff,
  take_all, inr, length-keep_if-le,
}
use mathlib.Core.List.{append-nil, append_assoc}
use zlttbots.Prelude.Int.{ℤ, pos, pos_part, min_ℤ}
use zlttbots.Prelude.Dict.{get_or-insert, get_or-insert_self, get_or-insert_ne, get_or, lookup}
use zlttbots.Runtime.Queue.{QueueMessage, CentralQueue, pending, drain, publish, consume}

module _ {P : Type 0} where
  pub drain-eq-take :
      (n : ℕ) (ms q : List (QueueMessage P)) → drain n ms q ≡ (ms ++ take n q, drop n q)
  unfolding drain
  drain-eq-take zero ms q = rw append-nil
  drain-eq-take (suc n) ms [] = rw append-nil
  drain-eq-take (suc n) ms (m ∷ q) = rw (drain-eq-take n (ms ++ m ∷ []) q) (rw append_assoc)

  pub pending-publish :
      (m : QueueMessage P) (q : CentralQueue P) (t : String)
      → pending (publish m q) t ≡ (if str_eq m.topic t then pending q t ++ m ∷ [] else pending q t)
  unfolding publish
  pending-publish m q t =
      ground (arith, get_or-insert [] m.topic t (pending q m.topic ++ m ∷ []) q, eq_iff m.topic t)

  -- A batch is the front of the topic: what is handed out, followed by what stays, is what was there,
  -- and the batch is as large as was asked for and as the topic allows. No other topic changes.
  pub consume_splits :
      (t : String) (n : ℤ) (q : CentralQueue P)
      → let (ms, q') = consume t n q in
        (ms ++ pending q' t ≡ pending q t)
        × (length ms ≡ min (pos_part n) (length (pending q t)))
        × ((u : String) → t ≢ u → pending q' u ≡ pending q u)
  unfolding consume
  consume_splits t n q =
      let queue = pending q t in
      let k = pos_part (min_ℤ n (pos (length queue))) in
      rw (drain-eq-take k [] queue) (
        rw get_or-insert_self (take-append-drop k queue),
        ground (arith, length-take k queue),
        λ u h. rw (get_or-insert_ne [] t u (drop k queue) q h),
      )

  -- `for message in messages: queue.publish(message)`
  pub publish_all : List (QueueMessage P) → CentralQueue P → CentralQueue P
  publish_all [] q = q
  publish_all (m ∷ ms) q = publish_all ms (publish m q)

  -- Publishing a run of messages adds to a topic those of its own, in their order.
  pub pending-publish_all :
      (ms : List (QueueMessage P)) (q : CentralQueue P) (t : String)
      → pending (publish_all ms q) t ≡ pending q t ++ keep_if (λ m. str_eq m.topic t) ms
  unfolding publish_all
  pending-publish_all [] q t = rw append-nil
  pending-publish_all (m ∷ ms) q t =
      rw (pending-publish_all ms (publish m q) t, pending-publish m q t)
        (elim (Bool-cases (str_eq m.topic t)) [
          | inl e ↦ rw e (append_assoc (pending q t) (m ∷ []) _)
          | inr e ↦ rw e
        ])

  -- First in, first out: once a run of messages has been published to an empty queue, a consumer
  -- that asks for at least as many as there are gets those of its topic, in the order of the run.
  pub consume-publish_all :
      (ms : List (QueueMessage P)) (t : String) (n : ℕ)
      → length ms ≤ n
      → (consume t (pos n) (publish_all ms [])).0 ≡ keep_if (λ m. str_eq m.topic t) ms
  unfolding consume get_or lookup
  consume-publish_all ms t n h =
      let kept = keep_if (λ (m : QueueMessage P). str_eq m.topic t) ms in
      let published : pending (publish_all ms []) t ≡ kept = pending-publish_all ms [] t in
      rw published (
        rw (drain-eq-take (pos_part (min_ℤ (pos n) (pos (length kept)))) [] kept)
          (take_all _ kept (ground (arith, length-keep_if-le (λ m. str_eq m.topic t) ms))))
