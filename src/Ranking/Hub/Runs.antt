-- ===== src/Ranking/Hub/Runs.antt =====
-- websocket.go: a hub from its start through any sequence of events.
use my_oj.Prelude.{
  ◌≡◌, refl, sym, ap, subst, ◌∙◌, Bool, true, false, not, ◌&&◌, ◌||◌, List, [], ◌∷◌, ◌++◌, length,
  ltb, if◌then◌else◌, Bool-cases, inl, inr, arith,
}
use my_oj.Prelude.Assoc.{get}
use my_oj.Prelude.Sets.{has, Distinct}
use my_oj.Models.Types.{Key}
use my_oj.Models.Judging.{Bytes}
use my_oj.Ranking.Hub.{
  Client, Frame, snapshot, Hub, send_buf_size, new_hub, put_channel, room_of, close_channel,
  handle_unregister, send_or_evict, broadcast_to, handle_broadcast, close_all, close_rooms,
  shutdown_all_clients, send_snapshot, take_first, write_pump, Event, connects, snapshot_comes,
  writes, leaves, broadcasts, cancelled, connect, step, run,
}
use my_oj.Ranking.Hub.Rooms.{all_clients, room_of-IsRoom, has-all_clients, all_clients-Distinct}
use my_oj.Ranking.Hub.Safe.{
  IsWell, new_hub-IsWell, connect-IsWell, unregister-IsWell, more_queued, snapshot_open,
  send_or_evict-IsWell, send_or_evict-stays,
}

-- What closing some channels changes.
record IsClosing (cs : List Client) (h h' : Hub) : Type 0 where
  same_panic : h'.hub_panicked ≡ h.hub_panicked
  now_closed : (d : Client) → (h'.channel d).closed ≡ (has d cs || (h.channel d).closed)
  same_queue : (d : Client) → (h'.channel d).queue ≡ (h.channel d).queue
  same_joined : h'.joined ≡ h.joined

close_all-IsClosing :
    (cs : List Client) (h : Hub)
    → Distinct cs
    → ((d : Client) → has d cs ≡ true → (h.channel d).closed ≡ false)
    → IsClosing cs h (close_all cs h)
unfolding close_all has
close_all-IsClosing [] h once opened = record {
  same_panic = refl;
  now_closed = λ d. refl;
  same_queue = λ d. refl;
  same_joined = refl;
}
close_all-IsClosing (c ∷ cs) h (out, once) opened =
    let first : (h.channel c).closed ≡ false = ground (arith, opened c) in
    let next : Hub = put_channel c (record (h.channel c) { closed = true }) h in
    let closing : close_channel c h ≡ next = rw first refl in
    let rest = close_all-IsClosing cs next once (λ d i. ground (arith, opened d)) in
    subst (λ g. IsClosing (c ∷ cs) h (close_all cs g)) (sym closing)
      record {
        same_panic = rest.same_panic;
        now_closed = λ d. ground (arith, rest.now_closed d);
        same_queue = λ d. ground (arith, rest.same_queue d);
        same_joined = rest.same_joined;
      }

close_all-append :
    (cs ds : List Client) (h : Hub) → close_all (cs ++ ds) h ≡ close_all ds (close_all cs h)
unfolding close_all
close_all-append [] ds h = refl
close_all-append (c ∷ cs) ds h = close_all-append cs ds (close_channel c h)

close_rooms-all :
    (rooms : List (Key × List Client)) (h : Hub)
    → close_rooms rooms h ≡ close_all (all_clients rooms) h
unfolding close_rooms close_all
close_rooms-all [] h = refl
close_rooms-all ((k, room) ∷ rooms) h =
    close_rooms-all rooms (close_all room h) ∙ sym (close_all-append room (all_clients rooms) h)

module _ (contest_of : Client → Key) where
  broadcast_to-IsWell :
      (payload : Bytes) (k : Key) (cs : List Client) (h : Hub)
      → IsWell contest_of h
      → Distinct cs
      → ((d : Client) → has d cs ≡ true → has d (room_of k h.rooms) ≡ true)
      → IsWell contest_of (broadcast_to payload k cs h)
  unfolding broadcast_to has
  broadcast_to-IsWell payload k [] h well once within = well
  broadcast_to-IsWell payload k (c ∷ cs) h well (out, once) within =
      let first : has c (room_of k h.rooms) ≡ true = within c (ground arith) in
      broadcast_to-IsWell payload k cs (send_or_evict payload k c h)
        (send_or_evict-IsWell contest_of h well payload k c first) once
        (λ d i.
          send_or_evict-stays contest_of h well payload k c d first (ground arith)
            (within d (ground arith)))

  module _ (h : Hub) (well : IsWell contest_of h) where
    broadcast-IsWell :
        (k : Key) (payload : Bytes) → IsWell contest_of (handle_broadcast payload k h)
    unfolding handle_broadcast
    broadcast-IsWell k payload =
        broadcast_to-IsWell payload k (room_of k h.rooms) h well
          (room_of-IsRoom contest_of k h.rooms well.tidy).0 (λ d i. i)

    shutdown-IsWell : IsWell contest_of (shutdown_all_clients h)
    unfolding shutdown_all_clients has get
    shutdown-IsWell =
        let closing : IsClosing (all_clients h.rooms) h (close_rooms h.rooms h) =
          subst (IsClosing (all_clients h.rooms) h) (sym (close_rooms-all h.rooms h)) (
            close_all-IsClosing (all_clients h.rooms) h
              (all_clients-Distinct contest_of h.rooms well.tidy)
              (λ d i.
                ground (arith, well.status d, has-all_clients contest_of d h.rooms well.tidy))) in
        record {
          quiet = closing.same_panic ∙ well.quiet;
          tidy = tt;
          status = λ d. ground (
            arith,
            closing.now_closed d,
            ap (has d) closing.same_joined,
            well.status d,
            well.listed d,
            has-all_clients contest_of d h.rooms well.tidy,
          );
          listed = λ d i. cc;
          bounded = λ d. ground (arith, closing.same_queue d, well.bounded d);
          ended = λ d off. refl;
        }

    snapshot-IsWell : (c : Client) (payload : Bytes) → IsWell contest_of (send_snapshot c payload h)
    unfolding send_snapshot
    snapshot-IsWell c payload = elim (Bool-cases (h.channel c).closed) [
      | inl closed ↦
          rw (closed, send_snapshot)
            record {
              quiet = well.quiet;
              tidy = well.tidy;
              status = well.status;
              listed = well.listed;
              bounded = well.bounded;
              ended = well.ended;
            }
      | inr opened ↦ elim (Bool-cases (ltb (length (h.channel c).queue) send_buf_size)) [
        | inr full ↦ rw opened (rw full well)
        | inl room ↦
            subst (IsWell contest_of) (sym (snapshot_open contest_of h well c payload opened room))
              (more_queued contest_of h well c (snapshot payload) room)
      ]
    ]

    write-IsWell : (c : Client) → IsWell contest_of (write_pump c h)
    unfolding write_pump
    write-IsWell c = taken_IsWell (h.channel c).queue refl
      where
        taken_IsWell :
            (fs : List Frame)
            → (h.channel c).queue ≡ fs
            → IsWell contest_of (put_channel c (take_first (h.channel c) fs) h)
        taken_IsWell [] e = record {
          quiet = well.quiet;
          tidy = well.tidy;
          status = λ d. ground (arith, well.status d, well.status c);
          listed = well.listed;
          bounded = λ d. ground (arith, well.bounded d, well.bounded c);
          ended = well.ended;
        }
        taken_IsWell (f ∷ fs) e = record {
          quiet = well.quiet;
          tidy = well.tidy;
          status = λ d. ground (arith, well.status d, well.status c);
          listed = well.listed;
          bounded = λ d. ground (arith, well.bounded d, well.bounded c, ap length e);
          ended = well.ended;
        }

    guarded-IsWell :
        (guard : Bool) (g : Hub)
        → (guard ≡ true → IsWell contest_of g)
        → IsWell contest_of (if guard then g else h)
    guarded-IsWell true g w = w refl
    guarded-IsWell false g w = well

    pub step-IsWell : (e : Event) → IsWell contest_of (step contest_of e h)
    unfolding step has get shutdown_all_clients
    step-IsWell (connects c) =
        guarded-IsWell (h.running && not (has c h.joined)) (connect contest_of c h)
          (λ new. connect-IsWell contest_of h well c (ground arith) (ground arith))
    step-IsWell (snapshot_comes c payload) =
        guarded-IsWell (has c h.joined) (send_snapshot c payload h) (λ _. snapshot-IsWell c payload)
    step-IsWell (writes c) = guarded-IsWell (has c h.joined) (write_pump c h) (λ _. write-IsWell c)
    step-IsWell (leaves c) =
        guarded-IsWell (h.running && has c h.joined) (handle_unregister c (contest_of c) h)
          (λ _. unregister-IsWell contest_of h well c)
    step-IsWell (broadcasts k payload) =
        guarded-IsWell h.running (handle_broadcast payload k h) (λ _. broadcast-IsWell k payload)
    step-IsWell cancelled =
        guarded-IsWell h.running (record (shutdown_all_clients h) { running = false })
          (λ _. stopped shutdown-IsWell)
      where
        stopped :
            IsWell contest_of (shutdown_all_clients h)
            → IsWell contest_of (record (shutdown_all_clients h) { running = false })
        stopped w = record {
          quiet = w.quiet;
          tidy = w.tidy;
          status = w.status;
          listed = w.listed;
          bounded = w.bounded;
          ended = λ d off. refl;
        }

  pub run-IsWell :
      (es : List Event) (h : Hub) → IsWell contest_of h → IsWell contest_of (run contest_of es h)
  unfolding run
  run-IsWell [] h well = well
  run-IsWell (e ∷ es) h well = run-IsWell es (step contest_of e h) (step-IsWell h well e)

  -- From its start, whatever connects, leaves, is broadcast or is written, in any order, the hub never
  -- sends on a closed channel nor closes one twice; each client stands once, in the room of its
  -- contest; its channel is closed exactly when it has registered and is out of that room, also after
  -- the end of the context; and no channel holds more than 64 messages.
  pub new_hub-run-IsWell : (es : List Event) → IsWell contest_of (run contest_of es new_hub)
  new_hub-run-IsWell es = run-IsWell es new_hub (new_hub-IsWell contest_of)
