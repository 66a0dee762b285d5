-- ===== src/Ranking/Hub/Evicted.antt =====
-- websocket.go: a snapshot that comes late.
use my_oj.Prelude.{◌≡◌, true, false, List, arith}
use my_oj.Prelude.Sets.{has}
use my_oj.Models.Types.{Key}
use my_oj.Models.Judging.{Bytes}
use my_oj.Ranking.Hub.{Client, new_hub, Event, snapshot_comes, send_snapshot, step, run}
use my_oj.Ranking.Hub.Safe.{here}
use my_oj.Ranking.Hub.Runs.{new_hub-run-IsWell}

-- Whatever has happened at the hub: when the snapshot of a registered client comes after the client has
-- left its room, by an eviction or by the end of the context, ServeWS sends on a closed channel and
-- panics.
pub late_snapshot_panics :
    (contest_of : Client → Key) (es : List Event) (c : Client) (payload : Bytes)
    → has c (run contest_of es new_hub).joined ≡ true
    → here contest_of c (run contest_of es new_hub).rooms ≡ false
    → (step contest_of (snapshot_comes c payload) (run contest_of es new_hub)).serve_panicked ≡ true
unfolding step send_snapshot
late_snapshot_panics contest_of es c payload joined out =
    let well = new_hub-run-IsWell contest_of es in ground (arith, well.status c)
