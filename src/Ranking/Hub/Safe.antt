-- ===== src/Ranking/Hub/Safe.antt =====
-- websocket.go: the clients' channels and the rooms, as the hub's handlers change them.
use my_oj.Prelude.{
  ◌≤◌, ◌≡◌, refl, sym, ap, subst, ◌∙◌, Bool, true, false, not, ◌&&◌, ◌||◌, some, List, [], ◌∷◌,
  ◌++◌, length, length-append, ltb, ◌==◌, if◌then◌else◌, Bool-cases, Option-cases, inl, inr, arith,
}
use my_oj.Prelude.Assoc.{get, set}
use my_oj.Prelude.Sets.{has, remove, Distinct, has-remove, remove-Distinct}
use my_oj.Models.Types.{Key}
use my_oj.Models.Judging.{Bytes}
use my_oj.Ranking.Hub.{
  Client, Frame, Hub, send_buf_size, new_hub, put_channel, members, update, snapshot, send_snapshot,
  room_of, close_channel, handle_register, without_client, unregister_in, handle_unregister,
  send_or_evict, connect,
}
use my_oj.Ranking.Hub.Rooms.{
  room_of-set, room_of-without_client, IsRoom, IsTidy, set-IsTidy, without_client-IsTidy,
  room_of-IsRoom,
}

module _ (contest_of : Client → Key) where
  -- Whether a client stands in the room of its contest.
  abbrev pub here : Client → List (Key × List Client) → Bool
  here c rooms = has c (room_of (contest_of c) rooms)

  -- The hub has not panicked, and a client's channel is closed exactly when the client has registered
  -- and is out of its room. No channel holds more than its buffer.
  pub record IsWell (h : Hub) : Type 0 where
    pub quiet : h.hub_panicked ≡ false
    pub tidy : IsTidy contest_of h.rooms
    pub status : (c : Client) → (h.channel c).closed ≡ (has c h.joined && not (here c h.rooms))
    pub listed : (c : Client) → here c h.rooms ≡ true → has c h.joined ≡ true
    pub bounded : (c : Client) → length (h.channel c).queue ≤ send_buf_size
    pub ended : (c : Client) → h.running ≡ false → here c h.rooms ≡ false

  pub new_hub-IsWell : IsWell new_hub
  unfolding new_hub has get
  new_hub-IsWell = record {
    quiet = refl;
    tidy = tt;
    status = λ c. refl;
    listed = λ c h. cc;
    bounded = λ c. omega arith;
    ended = λ c off. refl;
  }

  -- How a new room shows in the others' places.
  pub here-set :
      (c d : Client) (k : Key) (room : List Client) (m : List (Key × List Client))
      → here d (set k room m) ≡ (if k == contest_of d then has d room else here d m)
  here-set c d k room m = rw (room_of-set k (contest_of d) room m) (ground arith)

  same_room :
      (d : Client) (k : Key) (m : List (Key × List Client))
      → (k == contest_of d) ≡ true
      → has d (room_of k m) ≡ here d m
  same_room d k m e =
      let same : k ≡ contest_of d = ground arith in ap (λ j. has d (room_of j m)) same

  pub here-joins :
      (c d : Client) (k : Key) (m : List (Key × List Client))
      → contest_of c ≡ k
      → here d (set k (c ∷ room_of k m) m) ≡ ((c == d) || here d m)
  unfolding has
  here-joins c d k m at = elim (Bool-cases (k == contest_of d)) [
    | inl e ↦
        here-set c d k (c ∷ room_of k m) m ∙ rw e (ap (λ b. (c == d) || b) (same_room d k m e))
    | inr e ↦
        let other : (c == d) ≡ false = ground arith in
        here-set c d k (c ∷ room_of k m) m ∙ rw (e, other) refl
  ]

  -- A room without one of its clients, in one of the two ways of writing it back.
  pub here-parts :
      (c d : Client) (k : Key) (m m' : List (Key × List Client))
      → contest_of c ≡ k
      → Distinct (room_of k m)
      → here d m' ≡ (if k == contest_of d then has d (remove c (room_of k m)) else here d m)
      → here d m' ≡ (not (c == d) && here d m)
  here-parts c d k m m' at once h = elim (Bool-cases (k == contest_of d)) [
    | inl e ↦
        h
        ∙ rw e (has-remove d c (room_of k m) once ∙ ap (λ b. not (c == d) && b) (same_room d k m e))
    | inr e ↦ let other : (c == d) ≡ false = ground arith in h ∙ rw (e, other) refl
  ]

  remove-IsRoom :
      (c : Client) (k : Key) (room : List Client)
      → IsRoom contest_of k room
      → IsRoom contest_of k (remove c room)
  remove-IsRoom c k room (once, placed) =
      (remove-Distinct c room once, λ d h. placed d (ground (arith, has-remove d c room once)))

  module _ (h : Hub) (well : IsWell h) where
    pub connect-IsWell :
        (c : Client) → h.running ≡ true → has c h.joined ≡ false → IsWell (connect contest_of c h)
    unfolding handle_register has
    connect-IsWell c on new =
        let k = contest_of c in
        let (once, placed) = room_of-IsRoom contest_of k h.rooms well.tidy in
        let out : has c (room_of k h.rooms) ≡ false = ground (arith, well.listed c) in
        let joins = λ (d : Client). here-joins c d k h.rooms refl in
        rw (out, handle_register)
          record {
            quiet = well.quiet;
            tidy =
                set-IsTidy contest_of k (c ∷ room_of k h.rooms) h.rooms
                  ((out, once), λ d i. ground (arith, placed d)) well.tidy;
            status = λ d. ground (arith, joins d, well.status d, well.status c);
            listed = λ d i. ground (arith, joins d, well.listed d);
            bounded = well.bounded;
            ended = λ d off. cc;
          }

    -- The channel of a client that leaves its room is open, and gets closed.
    leave-IsWell :
        (c : Client) (rooms : List (Key × List Client))
        → here c h.rooms ≡ true
        → IsTidy contest_of rooms
        → ((d : Client) → here d rooms ≡ (not (c == d) && here d h.rooms))
        → IsWell (close_channel c (record h { rooms = rooms }))
    leave-IsWell c rooms present tidy parts =
        let opened : (h.channel c).closed ≡ false = ground (arith, well.status c) in
        rw opened record {
          quiet = well.quiet;
          tidy = tidy;
          status = λ d. ground (arith, parts d, well.status d, well.listed c);
          listed = λ d i. ground (arith, parts d, well.listed d);
          bounded = λ d. ground (arith, well.bounded d, well.bounded c);
          ended = λ d off. ground (arith, parts d, well.ended d);
        }

    pub unregister-IsWell : (c : Client) → IsWell (handle_unregister c (contest_of c) h)
    unfolding handle_unregister
    unregister-IsWell c = elim (Option-cases (get (contest_of c) h.rooms)) [
      | inl missing ↦ subst (λ o. IsWell (unregister_in c (contest_of c) h o)) (sym missing) well
      | inr (room, found) ↦
          subst (λ o. IsWell (unregister_in c (contest_of c) h o)) (sym found)
            (leave_room c room (ap members found))
    ]
      where
        leave_room :
            (c : Client) (room : List Client)
            → room_of (contest_of c) h.rooms ≡ room
            → IsWell (unregister_in c (contest_of c) h (some room))
        leave_room c room at = elim (Bool-cases (has c room)) [
          | inr absent ↦ rw absent well
          | inl present ↦
              let (once, placed) = room_of-IsRoom contest_of (contest_of c) h.rooms well.tidy in
              let less =
                subst (λ r. IsRoom contest_of (contest_of c) (remove c r)) at
                  (remove-IsRoom c (contest_of c) (room_of (contest_of c) h.rooms)
                    (once, placed)) in
              rw present (
                leave-IsWell c (without_client (contest_of c) (remove c room) h.rooms)
                  (ap (has c) at ∙ present)
                  (without_client-IsTidy contest_of (contest_of c) (remove c room) h.rooms less
                    well.tidy)
                  (λ d. here-parts c d (contest_of c) h.rooms _ refl once (
                    ap (has d)
                      (room_of-without_client (contest_of c) (contest_of d) (remove c room) h.rooms)
                    ∙ rw at (ground arith))))
        ]

    -- What a round of a broadcast does with a client whose channel is open.
    pub send_open :
        (payload : Bytes) (k : Key) (c : Client)
        → (h.channel c).closed ≡ false
        → ltb (length (h.channel c).queue) send_buf_size ≡ true
        → send_or_evict payload k c h
          ≡ put_channel c
              (record (h.channel c) { queue = (h.channel c).queue ++ (update payload ∷ []) })
              h
    unfolding send_or_evict
    send_open payload k c opened room = rw opened (rw room refl)

    -- What ServeWS does with a client whose channel has room.
    pub snapshot_open :
        (c : Client) (payload : Bytes)
        → (h.channel c).closed ≡ false
        → ltb (length (h.channel c).queue) send_buf_size ≡ true
        → send_snapshot c payload h
          ≡ put_channel c
              (record (h.channel c) { queue = (h.channel c).queue ++ (snapshot payload ∷ []) })
              h
    unfolding send_snapshot
    snapshot_open c payload opened room = rw opened (rw room refl)

    pub send_full :
        (payload : Bytes) (k : Key) (c : Client)
        → (h.channel c).closed ≡ false
        → ltb (length (h.channel c).queue) send_buf_size ≡ false
        → send_or_evict payload k c h
          ≡ close_channel c (record h { rooms = set k (remove c (room_of k h.rooms)) h.rooms })
    unfolding send_or_evict
    send_full payload k c opened full = rw opened (rw full refl)

    pub member-here :
        (k : Key) (c : Client) → has c (room_of k h.rooms) ≡ true → here c h.rooms ≡ true
    member-here k c i =
        let (once, placed) = room_of-IsRoom contest_of k h.rooms well.tidy in
        subst (λ j. has c (room_of j h.rooms) ≡ true) (sym (placed c i)) i

    pub member_open :
        (k : Key) (c : Client) → has c (room_of k h.rooms) ≡ true → (h.channel c).closed ≡ false
    member_open k c i = ground (arith, well.status c, member-here k c i)

    pub more_queued :
        (c : Client) (f : Frame)
        → ltb (length (h.channel c).queue) send_buf_size ≡ true
        → IsWell
            (put_channel c (record (h.channel c) { queue = (h.channel c).queue ++ (f ∷ []) }) h)
    more_queued c f room = record {
      quiet = well.quiet;
      tidy = well.tidy;
      status = λ d. ground (arith, well.status d, well.status c);
      listed = well.listed;
      bounded = λ d. ground (arith, well.bounded d, length-append (h.channel c).queue (f ∷ []));
      ended = well.ended;
    }

    pub send_or_evict-IsWell :
        (payload : Bytes) (k : Key) (c : Client)
        → has c (room_of k h.rooms) ≡ true
        → IsWell (send_or_evict payload k c h)
    send_or_evict-IsWell payload k c i =
        let opened = member_open k c i in
        let (once, placed) = room_of-IsRoom contest_of k h.rooms well.tidy in
        elim (Bool-cases (ltb (length (h.channel c).queue) send_buf_size)) [
          | inl room ↦
              subst IsWell (sym (send_open payload k c opened room))
                (more_queued c (update payload) room)
          | inr full ↦ subst IsWell (sym (send_full payload k c opened full)) (
              leave-IsWell c (set k (remove c (room_of k h.rooms)) h.rooms) (member-here k c i)
                (set-IsTidy contest_of k (remove c (room_of k h.rooms)) h.rooms
                  (remove-IsRoom c k (room_of k h.rooms) (once, placed)) well.tidy)
                (λ d.
                  here-parts c d k h.rooms _ (placed c i) once
                    (here-set c d k (remove c (room_of k h.rooms)) h.rooms)))
        ]

    -- The other clients of the room stay.
    pub send_or_evict-stays :
        (payload : Bytes) (k : Key) (c d : Client)
        → has c (room_of k h.rooms) ≡ true
        → (c == d) ≡ false
        → has d (room_of k h.rooms) ≡ true
        → has d (room_of k (send_or_evict payload k c h).rooms) ≡ true
    send_or_evict-stays payload k c d i other j =
        let opened = member_open k c i in
        let (once, placed) = room_of-IsRoom contest_of k h.rooms well.tidy in
        elim (Bool-cases (ltb (length (h.channel c).queue) send_buf_size)) [
          | inl room ↦
              ap (λ (g : Hub). has d (room_of k g.rooms)) (send_open payload k c opened room) ∙ j
          | inr full ↦
              ap (λ (g : Hub). has d (room_of k g.rooms)) (send_full payload k c opened full)
              ∙ rw opened (
                  ap (has d) (room_of-set k k (remove c (room_of k h.rooms)) h.rooms)
                  ∙ ground (arith, has-remove d c (room_of k h.rooms) once))
        ]
