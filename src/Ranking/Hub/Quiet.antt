-- ===== src/Ranking/Hub/Quiet.antt =====
-- websocket.go: the steps that send a client nothing new.
use my_oj.Prelude.{
  ◌≡◌, refl, sym, ap, subst, ◌∙◌, true, some, List, length, ltb, ◌==◌, Bool-cases, Option-cases,
  inl, inr, arith,
}
use mathlib.Core.List.{append-nil}
use my_oj.Prelude.Assoc.{get}
use my_oj.Prelude.Sets.{has, remove}
use my_oj.Models.Types.{Key}
use my_oj.Models.Judging.{Bytes}
use my_oj.Ranking.Hub.{
  Client, snapshot, SendChannel, Hub, send_buf_size, put_channel, members, room_of, close_channel,
  without_client, unregister_in, handle_unregister, send_snapshot, take_first, write_pump,
}
use my_oj.Ranking.Hub.Rooms.{room_of-without_client, room_of-IsRoom}
use my_oj.Ranking.Hub.Safe.{here, IsWell, here-parts, snapshot_open}
use my_oj.Ranking.Hub.Delivery.{heard, heard-queued, heard-take_first, updates}

module _ (contest_of : Client → Key) where
  -- A step that publishes nothing to a client: what it has heard stays, and it enters no room.
  pub record IsQuiet (d : Client) (h h' : Hub) : Type 0 where
    pub same_heard : heard (h'.channel d) ≡ heard (h.channel d)
    pub quiet_joined : h'.joined ≡ h.joined
    pub quiet_shrinks : here contest_of d h'.rooms ≡ true → here contest_of d h.rooms ≡ true

  pub IsQuiet-refl : (d : Client) (h : Hub) → IsQuiet d h h
  IsQuiet-refl d h = record {
    same_heard = refl;
    quiet_joined = refl;
    quiet_shrinks = λ there. there;
  }

  put_channel-IsQuiet :
      (c d : Client) (ch : SendChannel) (h : Hub)
      → heard ch ≡ heard (h.channel c)
      → IsQuiet d h (put_channel c ch h)
  put_channel-IsQuiet c d ch h e = record {
    same_heard = elim (Bool-cases (c == d)) [
      | inl it ↦ let same : c ≡ d = ground arith in rw it (e ∙ ap (λ x. heard (h.channel x)) same)
      | inr other ↦ rw other refl
    ];
    quiet_joined = refl;
    quiet_shrinks = λ there. there;
  }

  module _ (h : Hub) (well : IsWell contest_of h) (d : Client) where
    pub snapshot-IsQuiet : (c : Client) (payload : Bytes) → IsQuiet d h (send_snapshot c payload h)
    unfolding send_snapshot updates
    snapshot-IsQuiet c payload = elim (Bool-cases (h.channel c).closed) [
      | inl closed ↦
          rw (closed, send_snapshot)
            record { same_heard = refl; quiet_joined = refl; quiet_shrinks = λ there. there }
      | inr opened ↦ elim (Bool-cases (ltb (length (h.channel c).queue) send_buf_size)) [
        | inr full ↦ rw opened (rw full (IsQuiet-refl d h))
        | inl room ↦
            subst (IsQuiet d h) (sym (snapshot_open contest_of h well c payload opened room)) (
              put_channel-IsQuiet c d _ h
                (heard-queued (h.channel c) (snapshot payload) ∙ append-nil (heard (h.channel c))))
      ]
    ]

    pub write-IsQuiet : (c : Client) → IsQuiet d h (write_pump c h)
    unfolding write_pump
    write-IsQuiet c =
        put_channel-IsQuiet c d (take_first (h.channel c) (h.channel c).queue) h
          (heard-take_first (h.channel c) (h.channel c).queue refl)

    close-IsQuiet :
        (c : Client) (rooms : List (Key × List Client))
        → (here contest_of d rooms ≡ true → here contest_of d h.rooms ≡ true)
        → IsQuiet d h (close_channel c (record h { rooms = rooms }))
    close-IsQuiet c rooms shrinks = elim (Bool-cases (h.channel c).closed) [
      | inl closed ↦
          rw closed record { same_heard = refl; quiet_joined = refl; quiet_shrinks = shrinks }
      | inr opened ↦
          let q = put_channel-IsQuiet c d (record (h.channel c) { closed = true }) h refl in
          rw opened
            record { same_heard = q.same_heard; quiet_joined = refl; quiet_shrinks = shrinks }
    ]

    pub unregister-IsQuiet : (c : Client) → IsQuiet d h (handle_unregister c (contest_of c) h)
    unfolding handle_unregister
    unregister-IsQuiet c = elim (Option-cases (get (contest_of c) h.rooms)) [
      | inl missing ↦
          subst (λ o. IsQuiet d h (unregister_in c (contest_of c) h o)) (sym missing)
            (IsQuiet-refl d h)
      | inr (room, found) ↦
          subst (λ o. IsQuiet d h (unregister_in c (contest_of c) h o)) (sym found)
            (leave_quietly room (ap members found))
    ]
      where
        leave_quietly :
            (room : List Client)
            → room_of (contest_of c) h.rooms ≡ room
            → IsQuiet d h (unregister_in c (contest_of c) h (some room))
        leave_quietly room at = elim (Bool-cases (has c room)) [
          | inr absent ↦ rw absent (IsQuiet-refl d h)
          | inl present ↦
              let (once, placed) = room_of-IsRoom contest_of (contest_of c) h.rooms well.tidy in
              let parts =
                here-parts contest_of c d (contest_of c) h.rooms
                  (without_client (contest_of c) (remove c room) h.rooms) refl once
                  (ap (has d)
                      (room_of-without_client (contest_of c) (contest_of d) (remove c room) h.rooms)
                    ∙ rw at (ground arith)) in
              rw present (
                close-IsQuiet c (without_client (contest_of c) (remove c room) h.rooms)
                  (λ there. ground (arith, parts)))
        ]
