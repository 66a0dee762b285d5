-- ===== src/Ranking/Hub/Hears.antt =====
-- websocket.go: what a client hears while it stays.
use my_oj.Prelude.{
  ◌≡◌, refl, sym, ap, subst, ◌∙◌, Bool, true, false, not, ◌&&◌, List, [], ◌∷◌, ◌++◌, ◌==◌,
  if◌then◌else◌, Bool-cases, inl, inr, arith,
}
use mathlib.Core.List.{append_assoc, append-nil}
use my_oj.Prelude.Assoc.{get}
use my_oj.Prelude.Sets.{has}
use my_oj.Models.Types.{Key}
use my_oj.Models.Judging.{Bytes}
use my_oj.Ranking.Hub.{
  Client, Hub, new_hub, room_of, handle_register, handle_unregister, handle_broadcast,
  close_channel, close_all, close_rooms, shutdown_all_clients, send_snapshot, write_pump, Event,
  connects, snapshot_comes, writes, leaves, broadcasts, cancelled, connect, step, run,
}
use my_oj.Ranking.Hub.Rooms.{room_of-IsRoom}
use my_oj.Ranking.Hub.Safe.{here, IsWell, here-joins}
use my_oj.Ranking.Hub.Runs.{new_hub-run-IsWell, step-IsWell}
use my_oj.Ranking.Hub.Delivery.{heard, published, broadcast_to-IsRound}
use my_oj.Ranking.Hub.Quiet.{
  IsQuiet, IsQuiet-refl, snapshot-IsQuiet, write-IsQuiet, unregister-IsQuiet,
}

close_all-joined : (cs : List Client) (h : Hub) → (close_all cs h).joined ≡ h.joined
unfolding close_all
close_all-joined [] h = refl
close_all-joined (c ∷ cs) h = close_all-joined cs (close_channel c h) ∙ ground arith

close_rooms-joined :
    (rooms : List (Key × List Client)) (h : Hub) → (close_rooms rooms h).joined ≡ h.joined
unfolding close_rooms
close_rooms-joined [] h = refl
close_rooms-joined ((k, room) ∷ rooms) h =
    close_rooms-joined rooms (close_all room h) ∙ close_all-joined room h

module _ (contest_of : Client → Key) where
  -- A step as one registered client sees it: while it stays in its room it hears what is published to
  -- its contest, and once out it stays out.
  record IsHeard (d : Client) (payloads : List Bytes) (h h' : Hub) : Type 0 where
    stays :
        here contest_of d h'.rooms ≡ true → heard (h'.channel d) ≡ heard (h.channel d) ++ payloads
    no_return : here contest_of d h'.rooms ≡ true → here contest_of d h.rooms ≡ true
    still_joined : has d h'.joined ≡ true

  quiet-IsHeard :
      (d : Client) (h h' : Hub)
      → has d h.joined ≡ true
      → IsQuiet contest_of d h h'
      → IsHeard d [] h h'
  quiet-IsHeard d h h' joined q = record {
    stays = λ there. q.same_heard ∙ sym (append-nil (heard (h.channel d)));
    no_return = q.quiet_shrinks;
    still_joined = ap (has d) q.quiet_joined ∙ joined;
  }

  if-IsQuiet :
      (guard : Bool) (d : Client) (h g : Hub)
      → IsQuiet contest_of d h g
      → IsQuiet contest_of d h (if guard then g else h)
  if-IsQuiet true d h g q = q
  if-IsQuiet false d h g q = IsQuiet-refl contest_of d h

  module _ (h : Hub) (well : IsWell contest_of h) (d : Client)
      (joined : has d h.joined ≡ true) where
    connects-IsHeard :
        (c : Client) (guard : Bool)
        → (h.running && not (has c h.joined)) ≡ guard
        → IsHeard d [] h (if guard then connect contest_of c h else h)
    unfolding handle_register has
    connects-IsHeard c false new = quiet-IsHeard d h h joined (IsQuiet-refl contest_of d h)
    connects-IsHeard c true new =
        let k = contest_of c in
        let out : has c (room_of k h.rooms) ≡ false = ground (arith, well.listed c) in
        let other : (c == d) ≡ false = ground arith in
        rw (out, handle_register)
          record {
            stays = λ there. sym (append-nil (heard (h.channel d)));
            no_return = λ there. ground (arith, here-joins contest_of c d k h.rooms refl);
            still_joined = ground arith;
          }

    broadcast-IsHeard :
        (k : Key) (payload : Bytes)
        → IsHeard d
            (if k == contest_of d then payload ∷ [] else [])
            h
            (handle_broadcast payload k h)
    unfolding handle_broadcast
    broadcast-IsHeard k payload =
        let (once, placed) = room_of-IsRoom contest_of k h.rooms well.tidy in
        let round =
          broadcast_to-IsRound contest_of payload k (room_of k h.rooms) d h well once (λ c i. i) in
        record {
          stays = λ there. elim (Bool-cases (k == contest_of d)) [
            | inl mine ↦
                let same : contest_of d ≡ k = ground arith in
                let member : has d (room_of k h.rooms) ≡ true =
                  subst (λ j. has d (room_of j h.rooms) ≡ true) same (round.shrinks there) in
                rw mine (round.sent member there)
            | inr other ↦
                let absent : has d (room_of k h.rooms) ≡ false = ground (arith, placed d) in
                rw other (ap heard (round.unsent absent) ∙ sym (append-nil (heard (h.channel d))))
          ];
          no_return = round.shrinks;
          still_joined = ap (has d) round.same_joined ∙ joined;
        }

    broadcasts-IsHeard :
        (k : Key) (payload : Bytes) (guard : Bool)
        → h.running ≡ guard
        → IsHeard d
            (if k == contest_of d then payload ∷ [] else [])
            h
            (if guard then handle_broadcast payload k h else h)
    broadcasts-IsHeard k payload true on = broadcast-IsHeard k payload
    broadcasts-IsHeard k payload false off = record {
      stays = λ there. absurd (ground (arith, well.ended d));
      no_return = λ there. there;
      still_joined = joined;
    }

    cancelled-IsHeard :
        (guard : Bool)
        → IsHeard d [] h (if guard then record (shutdown_all_clients h) { running = false } else h)
    unfolding shutdown_all_clients has get
    cancelled-IsHeard false = quiet-IsHeard d h h joined (IsQuiet-refl contest_of d h)
    cancelled-IsHeard true = record {
      stays = λ there. cc;
      no_return = λ there. cc;
      still_joined = ap (has d) (close_rooms-joined h.rooms h) ∙ joined;
    }

    step-IsHeard :
        (e : Event) → IsHeard d (published (contest_of d) (e ∷ [])) h (step contest_of e h)
    unfolding step published
    step-IsHeard (connects c) = connects-IsHeard c _ refl
    step-IsHeard (snapshot_comes c payload) = quiet-IsHeard d h _ joined (
        if-IsQuiet (has c h.joined) d h (send_snapshot c payload h)
          (snapshot-IsQuiet contest_of h well d c payload))
    step-IsHeard (writes c) =
        quiet-IsHeard d h _ joined
          (if-IsQuiet (has c h.joined) d h (write_pump c h) (write-IsQuiet contest_of h well d c))
    step-IsHeard (leaves c) = quiet-IsHeard d h _ joined (
        if-IsQuiet (h.running && has c h.joined) d h (handle_unregister c (contest_of c) h)
          (unregister-IsQuiet contest_of h well d c))
    step-IsHeard (broadcasts k payload) = broadcasts-IsHeard k payload h.running refl
    step-IsHeard cancelled = cancelled-IsHeard h.running

  published-cons :
      (k : Key) (e : Event) (es : List Event)
      → published k (e ∷ es) ≡ published k (e ∷ []) ++ published k es
  unfolding published
  published-cons k (broadcasts j payload) es = ground arith
  published-cons k (connects c) es = refl
  published-cons k (snapshot_comes c payload) es = refl
  published-cons k (writes c) es = refl
  published-cons k (leaves c) es = refl
  published-cons k cancelled es = refl

  run-IsHeard :
      (es : List Event) (h : Hub) (d : Client)
      → IsWell contest_of h
      → has d h.joined ≡ true
      → IsHeard d (published (contest_of d) es) h (run contest_of es h)
  unfolding run published
  run-IsHeard [] h d well joined = quiet-IsHeard d h h joined (IsQuiet-refl contest_of d h)
  run-IsHeard (e ∷ es) h d well joined =
      let first = step-IsHeard h well d joined e in
      let rest =
        run-IsHeard es (step contest_of e h) d (step-IsWell contest_of h well e)
          first.still_joined in
      record {
        stays = λ there.
            rest.stays there
            ∙ ap (λ ps. ps ++ published (contest_of d) es) (first.stays (rest.no_return there))
            ∙ append_assoc (heard (h.channel d)) (published (contest_of d) (e ∷ []))
                (published (contest_of d) es)
            ∙ ap (λ ps. heard (h.channel d) ++ ps) (sym (published-cons (contest_of d) e es));
        no_return = λ there. first.no_return (rest.no_return there);
        still_joined = rest.still_joined;
      }

  -- A client that has registered, and that still stands in its room after some further events, stood
  -- there before them, and in the meantime every message that the hub broadcast to its contest was put
  -- into its channel, once and in order, and none of another contest. The hub may have begun anywhere
  -- in a run.
  pub run-heard :
      (before es : List Event) (d : Client)
      → let h = run contest_of before new_hub in
        has d h.joined ≡ true
        → here contest_of d (run contest_of es h).rooms ≡ true
        → (here contest_of d h.rooms ≡ true)
          × (heard ((run contest_of es h).channel d)
              ≡ heard (h.channel d) ++ published (contest_of d) es)
  run-heard before es d joined there =
      let all =
        run-IsHeard es (run contest_of before new_hub) d (new_hub-run-IsWell contest_of before)
          joined in
      (all.no_return there, all.stays there)
