-- ===== src/Mq/Stream/Acks.antt =====
-- stream.go: when an entry is acknowledged.
use my_oj.Prelude.{
  ℕ, zero, suc, ◌≡◌, refl, Bool, true, false, Option, none, some, List, [], ◌∷◌, ◌++◌, length, ltb,
  Bool-elim, if◌then◌else◌,
}
use my_oj.Mq.Stream.{
  Entry, Broker, Handler, Action, handled, handler_failed, acked, ack_failed, GroupReply,
  group_created, group_exists, group_failed, ReadReply, read_entries, read_nothing, read_failed,
  Ended, Drained, ack_entry, answer, dispatch, dispatch_all, message_of, pending_batch, then_more,
  drain_claimed, drain_found, drain_pending, after_read, read_loop, subscribe_in, subscribe,
}

-- The entry that the handler has taken and that is still to be acknowledged.
abbrev pub open_after : Action → Option ℕ
open_after (handled id) = some id
open_after (handler_failed id) = none
open_after (acked id) = none
open_after (ack_failed id) = none

-- The handler is called when no entry is open, and an acknowledgement is for the entry that is.
abbrev pub Allowed : Option ℕ → Action → Type 0
Allowed last (handled id) = last ≡ none
Allowed last (handler_failed id) = last ≡ none
Allowed last (acked id) = last ≡ some id
Allowed last (ack_failed id) = last ≡ some id

-- Right behind each entry that the handler has taken stands its acknowledgement, or the failure of it,
-- and there is no other; `last` is the entry that is open at the start.
abbrev pub AcksFollow : Option ℕ → List Action → Type 0
AcksFollow last [] = last ≡ none
AcksFollow last (a ∷ rest) = Allowed last a × AcksFollow (open_after a) rest

AcksFollow-append :
    (last : Option ℕ) (xs ys : List Action)
    → AcksFollow last xs
    → AcksFollow none ys
    → AcksFollow last (xs ++ ys)
AcksFollow-append last [] ys h k = rw h k
AcksFollow-append last (a ∷ xs) ys (h, hs) k = (h, AcksFollow-append (open_after a) xs ys hs k)

module _ {S : Type 0} (b : Broker S) (handler : Handler S) where
  ack_entry-AcksFollow : (id : ℕ) (r : S × Bool) → AcksFollow (some id) (ack_entry b handler id r).1
  ack_entry-AcksFollow id (s, true) = (refl, refl)
  ack_entry-AcksFollow id (s, false) = (refl, refl)

  answer-AcksFollow : (id : ℕ) (r : S × Bool) → AcksFollow none (answer b handler id r).1
  answer-AcksFollow id (s, true) = (refl, ack_entry-AcksFollow id (b.ack id s))
  answer-AcksFollow id (s, false) = (refl, refl)

  dispatch_all-AcksFollow :
      (es : List Entry) (s : S) → AcksFollow none (dispatch_all b handler es s).1
  unfolding dispatch_all dispatch
  dispatch_all-AcksFollow [] s = refl
  dispatch_all-AcksFollow (e ∷ es) s =
      AcksFollow-append none (dispatch b handler e s).1 _
        (answer-AcksFollow e.id (handler (message_of e) s))
        (dispatch_all-AcksFollow es (dispatch b handler e s).0)

  drain_claimed-AcksFollow :
      (next : S → S × List Action × Drained) (n : ℕ) (r : S × Option (List Entry))
      → ((s : S) → AcksFollow none (next s).1)
      → AcksFollow none (drain_claimed b handler next n r).1
  unfolding drain_claimed
  drain_claimed-AcksFollow next n (s, none) h = refl
  drain_claimed-AcksFollow next n (s, some es) h =
      let (s', actions) = dispatch_all b handler es s in
      Bool-elim (ltb n pending_batch)
        (λ short.
          AcksFollow none
            (if short
              then (s', actions, Drained.drained)
              else then_more b handler actions (next s')).1)
        (dispatch_all-AcksFollow es s)
        (AcksFollow-append none actions (next s').1 (dispatch_all-AcksFollow es s) (h s'))

  drain_found-AcksFollow :
      (next : S → S × List Action × Drained) (r : S × Option (List ℕ))
      → ((s : S) → AcksFollow none (next s).1)
      → AcksFollow none (drain_found b handler next r).1
  unfolding drain_found
  drain_found-AcksFollow next (s, none) h = refl
  drain_found-AcksFollow next (s, some []) h = refl
  drain_found-AcksFollow next (s, some (id ∷ ids)) h =
      drain_claimed-AcksFollow next (length (id ∷ ids)) (b.claim (id ∷ ids) s) h

  drain_pending-AcksFollow :
      (rounds : ℕ) (s : S) → AcksFollow none (drain_pending b handler rounds s).1
  unfolding drain_pending
  drain_pending-AcksFollow zero s = refl
  drain_pending-AcksFollow (suc rounds) s =
      drain_found-AcksFollow (drain_pending b handler rounds) (b.pending pending_batch s)
        (λ s'. drain_pending-AcksFollow rounds s')

  after_read-AcksFollow :
      (next : S → S × List Action × Ended) (r : S × ReadReply)
      → ((s : S) → AcksFollow none (next s).1)
      → AcksFollow none (after_read b handler next r).1
  unfolding after_read
  after_read-AcksFollow next (s, read_nothing) h = h s
  after_read-AcksFollow next (s, read_failed) h =
      Bool-elim (b.ended s)
        (λ over. AcksFollow none (if over then (s, [], Ended.cancelled) else next s).1) refl (h s)
  after_read-AcksFollow next (s, read_entries es) h =
      AcksFollow-append none (dispatch_all b handler es s).1 _ (dispatch_all-AcksFollow es s)
        (h (dispatch_all b handler es s).0)

  read_loop-AcksFollow : (rounds : ℕ) (s : S) → AcksFollow none (read_loop b handler rounds s).1
  unfolding read_loop
  read_loop-AcksFollow zero s = refl
  read_loop-AcksFollow (suc rounds) s =
      Bool-elim (b.ended s)
        (λ over.
          AcksFollow none
            (if over
              then (s, [], Ended.cancelled)
              else after_read b handler (read_loop b handler rounds) (b.read_group s)).1)
        refl
        (after_read-AcksFollow (read_loop b handler rounds) (b.read_group s)
          (λ s'. read_loop-AcksFollow rounds s'))

  subscribe_in-AcksFollow :
      (rounds drains : ℕ) (r : S × GroupReply)
      → AcksFollow none (subscribe_in b handler rounds drains r).1
  subscribe_in-AcksFollow rounds drains (s, group_failed) = refl
  subscribe_in-AcksFollow rounds drains (s, group_created) =
      AcksFollow-append none (drain_pending b handler drains s).1 _
        (drain_pending-AcksFollow drains s)
        (read_loop-AcksFollow rounds (drain_pending b handler drains s).0)
  subscribe_in-AcksFollow rounds drains (s, group_exists) =
      AcksFollow-append none (drain_pending b handler drains s).1 _
        (drain_pending-AcksFollow drains s)
        (read_loop-AcksFollow rounds (drain_pending b handler drains s).0)

  -- However Redis and the handler answer, while pending entries are drained and in the loop, for any
  -- number of rounds: right after the handler has returned nil for an entry comes the acknowledgement
  -- of that entry, or the failure of it, and no entry is acknowledged otherwise.
  pub subscribe-AcksFollow :
      (rounds drains : ℕ) (s : S) → AcksFollow none (subscribe b handler rounds drains s).1
  unfolding subscribe
  subscribe-AcksFollow rounds drains s = subscribe_in-AcksFollow rounds drains (b.create_group s)
