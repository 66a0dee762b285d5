-- ===== src/Tests/Hub.antt =====
-- Two clients of contest 3 and one of contest 4.
use Prim.Native.Nat.{ℕ}
use my_oj.Prelude.{zero, suc, ◌≡◌, refl, true, false, List, [], ◌∷◌, ◌++◌, ◌==◌, if◌then◌else◌}
use my_oj.Prelude.Assoc.{get, set, delete}
use my_oj.Prelude.Sets.{has, remove}
use my_oj.Models.Types.{Key}
use my_oj.Ranking.Hub.{
  Client, new_hub, Event, connects, snapshot_comes, writes, leaves, broadcasts, step, run,
  handle_register, handle_unregister, handle_broadcast, broadcast_to, send_or_evict, send_snapshot,
  write_pump,
}
use my_oj.Ranking.Hub.Safe.{here, IsWell}
use my_oj.Ranking.Hub.Runs.{new_hub-run-IsWell}
use my_oj.Ranking.Hub.Delivery.{heard, published}
use my_oj.Ranking.Hub.Hears.{run-heard}
use my_oj.Ranking.Hub.Evicted.{late_snapshot_panics}

abbrev in_contest : Client → Key
in_contest c = if c == 9 then 4 else 3

abbrev opening : List Event
opening = connects 7 ∷ connects 8 ∷ connects 9 ∷ broadcasts 3 (1 ∷ []) ∷ []

abbrev going_on : List Event
going_on =
    snapshot_comes 7 (2 ∷ [])
    ∷ writes 7
    ∷ broadcasts 4 (3 ∷ [])
    ∷ leaves 8
    ∷ broadcasts 3 (4 ∷ [])
    ∷ leaves 8
    ∷ []

new_hub-run-IsWell_example : IsWell in_contest (run in_contest (opening ++ going_on) new_hub)
new_hub-run-IsWell_example = new_hub-run-IsWell in_contest (opening ++ going_on)

run-heard_example :
    (here in_contest 7 (run in_contest opening new_hub).rooms ≡ true)
    × (heard ((run in_contest going_on (run in_contest opening new_hub)).channel 7)
        ≡ heard ((run in_contest opening new_hub).channel 7) ++ published 3 going_on)
unfolding run step new_hub handle_register handle_unregister handle_broadcast broadcast_to
    send_or_evict send_snapshot write_pump get set delete has remove
run-heard_example = run-heard in_contest opening going_on 7 joined_7 here_7
  where
    joined_7 : has 7 (run in_contest opening new_hub).joined ≡ true
    joined_7 = refl

    here_7 :
        here in_contest 7 (run in_contest going_on (run in_contest opening new_hub)).rooms ≡ true
    here_7 = refl

abbrev burst : ℕ → List Event
burst zero = []
burst (suc n) = broadcasts 3 (n ∷ []) ∷ burst n

-- 65 messages come before the snapshot.
late_snapshot_panics_example :
    (step in_contest
      (snapshot_comes 7 (2 ∷ []))
      (run in_contest (connects 7 ∷ burst 65) new_hub)).serve_panicked
    ≡ true
unfolding run step new_hub handle_register handle_unregister handle_broadcast broadcast_to
    send_or_evict send_snapshot write_pump get set delete has remove
late_snapshot_panics_example =
    late_snapshot_panics in_contest (connects 7 ∷ burst 65) 7 (2 ∷ []) joined_7 out_7
  where
    joined_7 : has 7 (run in_contest (connects 7 ∷ burst 65) new_hub).joined ≡ true
    joined_7 = refl

    out_7 : here in_contest 7 (run in_contest (connects 7 ∷ burst 65) new_hub).rooms ≡ false
    out_7 = refl
