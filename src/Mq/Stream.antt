-- ===== src/Mq/Stream.antt =====
-- internal/mq/redis/stream.go: the consumer of a queue. Redis answers from outside: its commands, and
-- whether the context has ended, are functions on a state of the world, which the handler changes too.
pub mod Acks
pub mod Drain
pub mod Ends
use my_oj.Prelude.{
  ℕ, zero, suc, Bool, true, false, Option, none, some, List, [], ◌∷◌, ◌++◌, map, length, ltb,
  if◌then◌else◌,
}
use my_oj.Models.Judging.{Bytes}

-- An entry of the stream. Its `data` may be missing.
pub record Entry : Type 0 where
  pub id : ℕ
  pub payload : Option Bytes

-- `mq.Message`.
pub record Message : Type 0 where
  pub id : ℕ
  pub payload : Bytes

pub data GroupReply : Type 0 where
  group_created group_exists group_failed : GroupReply

pub data ReadReply : Type 0 where
  read_entries : List Entry → ReadReply
  read_nothing read_failed : ReadReply

-- The commands of Redis for one queue, group and consumer; none and false stand for an error.
pub record Broker (S : Type 0) : Type 0 where
  pub ended : S → Bool
  pub create_group : S → S × GroupReply
  pub read_group : S → S × ReadReply
  pub pending : ℕ → S → S × Option (List ℕ)
  pub claim : List ℕ → S → S × Option (List Entry)
  pub ack : ℕ → S → S × Bool

-- The handler answers with true for nil.
abbrev pub Handler : Type 0 → Type 0
Handler S = Message → S → S × Bool

pub data Action : Type 0 where
  handled handler_failed acked ack_failed : ℕ → Action

abbrev pub payload_of : Option Bytes → Bytes
payload_of none = []
payload_of (some b) = b

abbrev pub message_of : Entry → Message
message_of e = record { id = e.id; payload = payload_of e.payload }

abbrev pub pending_batch : ℕ
pending_batch = 64

-- How a subscription ends, if it does.
pub data Ended : Type 0 where
  cancelled no_group still_running : Ended

pub data Drained : Type 0 where
  drained drain_failed still_draining : Drained

module _ {S : Type 0} (b : Broker S) (handler : Handler S) where
  -- `dispatch` after its `XACK`, whose error is only logged.
  abbrev pub ack_entry : ℕ → S × Bool → S × List Action
  ack_entry id (s, true) = (s, acked id ∷ [])
  ack_entry id (s, false) = (s, ack_failed id ∷ [])

  -- `dispatch` after the handler has answered.
  abbrev pub answer : ℕ → S × Bool → S × List Action
  answer id (s, true) = let (s', acks) = ack_entry id (b.ack id s) in (s', handled id ∷ acks)
  answer id (s, false) = (s, handler_failed id ∷ [])

  unfoldable pub dispatch : Entry → S → S × List Action
  dispatch e s = answer e.id (handler (message_of e) s)

  unfoldable pub dispatch_all : List Entry → S → S × List Action
  dispatch_all [] s = (s, [])
  dispatch_all (e ∷ es) s =
      let (s', first) = dispatch e s in let (s'', rest) = dispatch_all es s' in (s'', first ++ rest)

  abbrev pub then_more : List Action → S × List Action × Drained → S × List Action × Drained
  then_more first (s, rest, end) = (s, first ++ rest, end)

  -- A round of `drainPending`, given the rounds after it: what follows `XCLAIM`, and the whole.
  unfoldable pub drain_claimed :
      (S → S × List Action × Drained) → ℕ → S × Option (List Entry) → S × List Action × Drained
  drain_claimed next n (s, none) = (s, [], drain_failed)
  drain_claimed next n (s, some entries) =
      let (s', actions) = dispatch_all entries s in
      if ltb n pending_batch then (s', actions, drained) else then_more actions (next s')

  unfoldable pub drain_found :
      (S → S × List Action × Drained) → S × Option (List ℕ) → S × List Action × Drained
  drain_found next (s, none) = (s, [], drain_failed)
  drain_found next (s, some []) = (s, [], drained)
  drain_found next (s, some (id ∷ ids)) =
      drain_claimed next (length (id ∷ ids)) (b.claim (id ∷ ids) s)

  -- `drainPending`, on fuel.
  unfoldable pub drain_pending : ℕ → S → S × List Action × Drained
  drain_pending zero s = (s, [], still_draining)
  drain_pending (suc rounds) s = drain_found (drain_pending rounds) (b.pending pending_batch s)

  abbrev more_rounds : List Action → S × List Action × Ended → S × List Action × Ended
  more_rounds first (s, rest, end) = (s, first ++ rest, end)

  -- What the loop of `Subscribe` does with the answer to `XREADGROUP`. After an error it waits, which
  -- the end of the context cuts short.
  unfoldable pub after_read :
      (S → S × List Action × Ended) → S × ReadReply → S × List Action × Ended
  after_read next (s, read_nothing) = next s
  after_read next (s, read_failed) = if b.ended s then (s, [], cancelled) else next s
  after_read next (s, read_entries entries) =
      let (s', actions) = dispatch_all entries s in more_rounds actions (next s')

  -- The loop of `Subscribe`, on fuel, since it runs until the context ends.
  unfoldable pub read_loop : ℕ → S → S × List Action × Ended
  read_loop zero s = (s, [], still_running)
  read_loop (suc rounds) s =
      let round = after_read (read_loop rounds) (b.read_group s) in
      if b.ended s then (s, [], cancelled) else round

  abbrev pub subscribe_in : ℕ → ℕ → S × GroupReply → S × List Action × Ended
  subscribe_in rounds drains (s, group_failed) = (s, [], no_group)
  subscribe_in rounds drains (s, group_created) =
      let (s', actions, end) = drain_pending drains s in more_rounds actions (read_loop rounds s')
  subscribe_in rounds drains (s, group_exists) =
      let (s', actions, end) = drain_pending drains s in more_rounds actions (read_loop rounds s')

  -- `Subscribe`: a drain that fails is logged only.
  unfoldable pub subscribe : ℕ → ℕ → S → S × List Action × Ended
  subscribe rounds drains s = subscribe_in rounds drains (b.create_group s)
