-- ===== src/Ranking/Hub/Delivery.antt =====
-- websocket.go: which messages a client gets.
use my_oj.Prelude.{
  ◌≡◌, refl, sym, ap, subst, ◌∙◌, true, false, List, [], ◌∷◌, ◌++◌, length, ltb, ◌==◌,
  if◌then◌else◌, Bool-cases, inl, inr, arith,
}
use mathlib.Core.List.{append_assoc}
use my_oj.Prelude.Sets.{has, remove, Distinct}
use my_oj.Models.Types.{Key}
use my_oj.Models.Judging.{Bytes}
use my_oj.Ranking.Hub.{
  Client, Frame, snapshot, update, SendChannel, Hub, send_buf_size, room_of, send_or_evict,
  broadcast_to, take_first, Event, connects, snapshot_comes, writes, leaves, broadcasts, cancelled,
}
use my_oj.Ranking.Hub.Rooms.{room_of-IsRoom}
use my_oj.Ranking.Hub.Safe.{
  here, IsWell, here-parts, here-set, send_open, send_full, member_open, send_or_evict-IsWell,
  send_or_evict-stays,
}

-- The broadcasts among the messages.
unfoldable pub updates : List Frame → List Bytes
updates [] = []
updates (update payload ∷ fs) = payload ∷ updates fs
updates (snapshot payload ∷ fs) = updates fs

-- The broadcasts that the client has been sent or will be.
abbrev pub heard : SendChannel → List Bytes
heard ch = updates (ch.taken ++ ch.queue)

updates-append : (fs gs : List Frame) → updates (fs ++ gs) ≡ updates fs ++ updates gs
unfolding updates
updates-append [] gs = refl
updates-append (update payload ∷ fs) gs = ap (λ ps. payload ∷ ps) (updates-append fs gs)
updates-append (snapshot payload ∷ fs) gs = updates-append fs gs

-- What is queued behind is heard last.
pub heard-queued :
    (ch : SendChannel) (f : Frame)
    → heard (record ch { queue = ch.queue ++ (f ∷ []) }) ≡ heard ch ++ updates (f ∷ [])
heard-queued ch f =
    ap updates (sym (append_assoc ch.taken ch.queue (f ∷ [])))
    ∙ updates-append (ch.taken ++ ch.queue) (f ∷ [])

pub heard-take_first :
    (ch : SendChannel) (fs : List Frame) → ch.queue ≡ fs → heard (take_first ch fs) ≡ heard ch
heard-take_first ch [] e = refl
heard-take_first ch (f ∷ fs) e =
    ap updates (append_assoc ch.taken (f ∷ []) fs) ∙ ap (λ q. updates (ch.taken ++ q)) (sym e)

-- The payloads broadcast to a contest.
unfoldable pub published : Key → List Event → List Bytes
published k [] = []
published k (broadcasts j payload ∷ es) =
    let rest = published k es in if j == k then payload ∷ rest else rest
published k (connects c ∷ es) = published k es
published k (snapshot_comes c payload ∷ es) = published k es
published k (writes c ∷ es) = published k es
published k (leaves c ∷ es) = published k es
published k (cancelled ∷ es) = published k es

module _ (contest_of : Client → Key) where
  -- What a round of a broadcast shows to one client.
  pub record IsRound (payload : Bytes) (cs : List Client) (d : Client) (h h' : Hub) : Type 0 where
    pub shrinks : here contest_of d h'.rooms ≡ true → here contest_of d h.rooms ≡ true
    pub same_joined : h'.joined ≡ h.joined
    pub unsent : has d cs ≡ false → h'.channel d ≡ h.channel d
    pub sent :
        has d cs ≡ true
        → here contest_of d h'.rooms ≡ true
        → heard (h'.channel d) ≡ heard (h.channel d) ++ (payload ∷ [])

  send_or_evict-IsRound :
      (payload : Bytes) (k : Key) (c d : Client) (h : Hub)
      → IsWell contest_of h
      → has c (room_of k h.rooms) ≡ true
      → IsRound payload (c ∷ []) d h (send_or_evict payload k c h)
  unfolding has updates
  send_or_evict-IsRound payload k c d h well i =
      let opened = member_open contest_of h well k c i in
      let (once, placed) = room_of-IsRoom contest_of k h.rooms well.tidy in
      elim (Bool-cases (ltb (length (h.channel c).queue) send_buf_size)) [
        | inl room ↦
            subst (IsRound payload (c ∷ []) d h)
              (sym (send_open contest_of h well payload k c opened room))
              record {
                shrinks = λ there. there;
                same_joined = refl;
                unsent = λ other. ground arith;
                sent = λ it there.
                    let same : c ≡ d = ground arith in
                    subst
                      (λ x.
                        heard (
                          if c == x
                          then record (h.channel c) {
                            queue = (h.channel c).queue ++ (update payload ∷ []);
                          }
                          else h.channel x)
                        ≡ heard (h.channel x) ++ (payload ∷ []))
                      same (ground (arith, heard-queued (h.channel c) (update payload)));
              }
        | inr full ↦
            let parts =
              here-parts contest_of c d k h.rooms _ (placed c i) once
                (here-set contest_of c d k (remove c (room_of k h.rooms)) h.rooms) in
            subst (IsRound payload (c ∷ []) d h)
              (sym (send_full contest_of h well payload k c opened full))
              (rw opened record {
                shrinks = λ there. ground (arith, parts);
                same_joined = refl;
                unsent = λ other. ground arith;
                sent = λ it there. absurd (ground (arith, parts));
              })
      ]

  pub broadcast_to-IsRound :
      (payload : Bytes) (k : Key) (cs : List Client) (d : Client) (h : Hub)
      → IsWell contest_of h
      → Distinct cs
      → ((c : Client) → has c cs ≡ true → has c (room_of k h.rooms) ≡ true)
      → IsRound payload cs d h (broadcast_to payload k cs h)
  unfolding broadcast_to has
  broadcast_to-IsRound payload k [] d h well once within = record {
    shrinks = λ there. there;
    same_joined = refl;
    unsent = λ other. refl;
    sent = λ it there. cc;
  }
  broadcast_to-IsRound payload k (c ∷ cs) d h well (out, once) within =
      let member : has c (room_of k h.rooms) ≡ true = within c (ground arith) in
      let first = send_or_evict-IsRound payload k c d h well member in
      let rest =
        broadcast_to-IsRound payload k cs d (send_or_evict payload k c h)
          (send_or_evict-IsWell contest_of h well payload k c member) once
          (λ x i.
            send_or_evict-stays contest_of h well payload k c x member (ground arith)
              (within x (ground arith))) in
      record {
        shrinks = λ there. first.shrinks (rest.shrinks there);
        same_joined = rest.same_joined ∙ first.same_joined;
        unsent = λ other. rest.unsent (ground arith) ∙ first.unsent (ground arith);
        sent = λ it there. elim (Bool-cases (c == d)) [
          | inl same ↦
              ap heard (rest.unsent (ground arith)) ∙ first.sent (ground arith) (rest.shrinks there)
          | inr other ↦
              rest.sent (ground arith) there
              ∙ ap (λ ch. heard ch ++ (payload ∷ [])) (first.unsent (ground arith))
        ];
      }
