-- ===== src/Tests/Stream.antt =====
-- A queue whose state is the list of the pending entries of the consumer.
use my_oj.Prelude.{
  ℕ, zero, suc, ◌≡◌, refl, Bool, true, false, none, some, List, [], ◌∷◌, map, take, ◌==◌,
  if◌then◌else◌,
}
use my_oj.Mq.Stream.{
  Entry, Broker, Handler, group_created, read_nothing, still_draining, handled, acked,
  handler_failed, drain_pending, subscribe, drain_found, drain_claimed, dispatch_all, dispatch,
  read_loop,
}
use my_oj.Mq.Stream.Acks.{AcksFollow, subscribe-AcksFollow}
use my_oj.Mq.Stream.Drain.{AllRefused, repeated, drain_pending_stuck}

unfoldable remove : ℕ → List ℕ → List ℕ
remove id [] = []
remove id (x ∷ xs) = let rest = remove id xs in if x == id then xs else x ∷ rest

abbrev entry : ℕ → Entry
entry id = record { id = id; payload = some (id ∷ []) }

-- The context ends when nothing is pending.
abbrev nothing_pending : List ℕ → Bool
nothing_pending [] = true
nothing_pending (_ ∷ _) = false

abbrev queue : Broker (List ℕ)
queue = record {
  ended = nothing_pending;
  create_group = λ s. (s, group_created);
  read_group = λ s. (s, read_nothing);
  pending = λ n s. (s, some (take n s));
  claim = λ ids s. (s, some (map entry ids));
  ack = λ id s. (remove id s, true);
}

abbrev takes_all : Handler (List ℕ)
takes_all m s = (s, true)

abbrev refuses_all : Handler (List ℕ)
refuses_all m s = (s, false)

-- Refuses entry 2.
abbrev refuses_2 : Handler (List ℕ)
refuses_2 m s = (s, if m.id == 2 then false else true)

abbrev down_from : ℕ → List ℕ
down_from zero = []
down_from (suc n) = n ∷ down_from n

all_refused : (s : List ℕ) (es : List Entry) → AllRefused queue refuses_all s es
all_refused s [] = tt
all_refused s (e ∷ es) = (refl, all_refused s es)

drain_pending_stuck_example :
    drain_pending queue refuses_all 5 (down_from 66)
    ≡ (down_from 66, repeated 5 (map entry (take 64 (down_from 66))), still_draining)
drain_pending_stuck_example =
    drain_pending_stuck queue refuses_all 5 (down_from 66) (take 64 (down_from 66))
      (map entry (take 64 (down_from 66))) refl refl refl
      (all_refused (down_from 66) (map entry (take 64 (down_from 66))))

subscribe-AcksFollow_example : AcksFollow none (subscribe queue refuses_2 4 2 (1 ∷ 2 ∷ 3 ∷ [])).1
subscribe-AcksFollow_example = subscribe-AcksFollow queue refuses_2 4 2 (1 ∷ 2 ∷ 3 ∷ [])

refused_stays_pending :
    (subscribe queue refuses_2 0 1 (1 ∷ 2 ∷ 3 ∷ [])).1
    ≡ (handled 1 ∷ acked 1 ∷ handler_failed 2 ∷ handled 3 ∷ acked 3 ∷ [])
unfolding subscribe drain_pending drain_found drain_claimed dispatch_all dispatch read_loop remove
refused_stays_pending = refl
