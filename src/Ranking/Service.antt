-- ===== src/Ranking/Service.antt =====
-- internal/core/ranking/service.go: the consumer of judge results that keeps the live scoreboard.
-- Redis and the loaders are outside; what they answer is an input of each operation.
pub mod Effects
use Prim.Native.String.{String}
use my_oj.Prelude.{
  ℕ, ◌+◌, Bool, true, false, not, ◌&&◌, ◌||◌, Option, none, some, List, [], ◌∷◌, ◌++◌, map, ◌==◌,
  if◌then◌else◌,
}
use my_oj.Prelude.Assoc
use my_oj.Models.Types.{Key}
use my_oj.Models.Time.{Time, before, is_zero}
use my_oj.Mq.Messages.{ResultMessage}
use my_oj.Scoring.Entry.{SubmissionEvent, ScoreEntry}
use my_oj.Scoring.Oi.{Strategy, strategy_apply, new_registry}
use my_oj.Scoring.Oi
use my_oj.Scoring.Rank.{Runtime}
use my_oj.Ranking.Board.{
  BoardSnapshot, ContestMeta, ProblemLabel, UserInfo, board_rows, build_snapshot,
}

-- The keys of one contest in Redis, and the frames published on its channel, oldest first.
pub record ContestKeys : Type 0 where
  pub entries : List (Key × Key × ScoreEntry)
  pub revealed : Bool
  pub snapshot : Option BoardSnapshot
  pub events : List BoardSnapshot

abbrev pub no_keys : ContestKeys
no_keys = record { entries = []; revealed = false; snapshot = none; events = [] }

pub record CachedMeta : Type 0 where
  pub meta : ContestMeta
  pub expires_at : Time

pub record RankingState : Type 0 where
  pub contests : List (Key × ContestKeys)
  pub meta_cache : List (Key × CachedMeta)

-- What the database answers.
pub record Loaders : Type 0 where
  pub contest_meta : Key → Option ContestMeta
  pub contest_problems : Key → Option (List ProblemLabel)
  pub usernames : List Key → Option (Key → UserInfo)

-- Which Redis commands of one operation fail.
pub record Faults : Type 0 where
  pub hget : Bool
  pub hset : Bool
  pub hgetall : Bool
  pub exists : Bool
  pub set_revealed : Bool
  pub set : Bool
  pub publish : Bool

-- `nil`, after which the message is acknowledged, or an error, after which it stays pending.
pub data Reply : Type 0 where
  acked : Reply
  failed : Reply

abbrev pub keys_of : Key → RankingState → ContestKeys
keys_of cid st = elim (Assoc.get cid st.contests) [ none ↦ no_keys | some k ↦ k ]

abbrev pub put_keys : Key → ContestKeys → RankingState → RankingState
put_keys cid k st = record st { contests = Assoc.set cid k st.contests }

-- 30 seconds.
abbrev pub meta_ttl : ℕ
meta_ttl = 30_000_000_000

-- `contestMetaCache.get`.
unfoldable pub cache_get : Loaders → Time → Key → RankingState → RankingState × Option ContestMeta
cache_get ld now id st =
    let load : RankingState × Option ContestMeta = elim (ld.contest_meta id) [
      | none ↦ (st, none)
      | some meta ↦ (
        record st {
          meta_cache =
              Assoc.set id (record { meta = meta; expires_at = now + meta_ttl }) st.meta_cache;
        },
        some meta,
      )
    ] in
    elim (Assoc.get id st.meta_cache) [
      | none ↦ load
      | some cm ↦ if before now cm.expires_at then (st, some cm.meta) else load
    ]

unfoldable pub submit_time_of : ResultMessage → Time
submit_time_of r = if is_zero r.submitted_at then r.judged_at else r.submitted_at

-- `rebuildSnapshot`: the loads, the board, and its store under the snapshot key.
unfoldable pub rebuild_snapshot :
    Runtime
    → Loaders
    → Faults
    → Time
    → Key
    → ContestMeta
    → Strategy
    → RankingState
    → RankingState × Option BoardSnapshot
rebuild_snapshot rt ld faults now cid meta strategy st =
    let k = keys_of cid st in
    let revealed = not faults.exists && k.revealed in
    let rows = board_rows rt meta strategy revealed (map (λ f. f.2) k.entries) in
    if faults.hgetall then (st, none) else elim (ld.contest_problems cid) [
      | none ↦ (st, none)
      | some labels ↦ elim (ld.usernames (map (λ r. r.user_id) rows)) [
        | none ↦ (st, none)
        | some users ↦
            let snap = build_snapshot cid meta now revealed rows labels users in
            if faults.set
            then (st, none)
            else (put_keys cid (record k { snapshot = some snap }) st, some snap)
      ]
    ]

-- `publishSnapshot`, which appends to the channel unless Redis fails.
unfoldable pub publish_snapshot : Faults → Key → BoardSnapshot → RankingState → RankingState × Reply
publish_snapshot faults cid snap st =
    let k = keys_of cid st in
    if faults.publish
    then (st, failed)
    else (put_keys cid (record k { events = k.events ++ snap ∷ [] }) st, acked)

unfoldable pub event_of : ResultMessage → ContestMeta → SubmissionEvent
unfolding submit_time_of
event_of r meta = record {
  user_id = r.user_id;
  problem_id = r.problem_id;
  status = r.status;
  score = r.score;
  submit_time = submit_time_of r;
  contest_start = meta.start_time;
  freeze_time = meta.freeze_time;
}

-- The cell after a result: a failed read counts as a missing entry.
unfoldable pub next_entry :
    Faults → ContestMeta → Strategy → ResultMessage → ContestKeys → ScoreEntry
unfolding event_of
next_entry faults meta strategy r k =
    let prev = if faults.hget then none else Assoc.get2 r.user_id r.problem_id k.entries in
    strategy_apply strategy (event_of r meta) prev meta.settings

-- The read-modify-write of the cell.
unfoldable pub update_entry :
    Faults → Key → ContestMeta → Strategy → ResultMessage → RankingState → RankingState
update_entry faults cid meta strategy r st =
    let k = keys_of cid st in
    let entry = next_entry faults meta strategy r k in
    put_keys cid (record k { entries = Assoc.set2 r.user_id r.problem_id entry k.entries }) st

-- The end of `processContestResult`: the board rebuilt and published; a failed publish only warns.
unfoldable pub broadcast :
    Runtime
    → Loaders
    → Faults
    → Time
    → Key
    → ContestMeta
    → Strategy
    → RankingState
    → RankingState × Reply
broadcast rt ld faults now cid meta strategy st =
    let (st', snap) = rebuild_snapshot rt ld faults now cid meta strategy st in
    elim snap [ none ↦ (st', failed) | some s ↦ ((publish_snapshot faults cid s st').0, acked) ]

-- The part of `processContestResult` after the contest and its strategy are known.
unfoldable pub integrate_result :
    Runtime
    → Loaders
    → Faults
    → Time
    → Key
    → ContestMeta
    → Strategy
    → ResultMessage
    → RankingState
    → RankingState × Reply
integrate_result rt ld faults now cid meta strategy r st =
    if faults.hset
    then (st, failed)
    else broadcast rt ld faults now cid meta strategy (update_entry faults cid meta strategy r st)

unfoldable pub process_contest_result :
    Runtime → Loaders → Faults → Time → Key → ResultMessage → RankingState → RankingState × Reply
process_contest_result rt ld faults now cid r st =
    let (st', found) = cache_get ld now cid st in
    elim found [
      | none ↦ (st', failed)
      | some meta ↦ elim (Oi.get new_registry meta.contest_type) [
        | none ↦ (st', acked)
        | some strategy ↦ integrate_result rt ld faults now cid meta strategy r st'
      ]
    ]

-- `handleResult`: malformed payloads and results outside a contest are acknowledged and skipped.
unfoldable pub handle_result :
    Runtime → Loaders → Faults → Time → Option ResultMessage → RankingState → RankingState × Reply
handle_result rt ld faults now none st = (st, acked)
handle_result rt ld faults now (some r) st = elim r.contest_id [
  | none ↦ (st, acked)
  | some cid ↦
      if r.user_id == 0 || r.problem_id == 0
      then (st, acked)
      else process_contest_result rt ld faults now cid r st
]

-- `RevealContest` (解榜).
unfoldable pub reveal_contest :
    Runtime → Loaders → Faults → Time → Key → RankingState → RankingState × Reply
reveal_contest rt ld faults now cid st =
    if faults.set_revealed
    then (st, failed)
    else let st₁ = put_keys cid (record (keys_of cid st) { revealed = true }) st in
      let (st₂, found) = cache_get ld now cid st₁ in
      elim found [
        | none ↦ (st₂, failed)
        | some meta ↦ elim (Oi.get new_registry meta.contest_type) [
          | none ↦ (st₂, failed)
          | some strategy ↦
              let (st₃, snap) = rebuild_snapshot rt ld faults now cid meta strategy st₂ in
              elim snap [ none ↦ (st₃, failed) | some s ↦ publish_snapshot faults cid s st₃ ]
        ]
      ]
