-- ===== src/Ranking/Service/Effects.antt =====
-- service.go: the cells that one judge result changes, on every path.
use my_oj.Prelude.{
  ◌≡◌, ◌≢◌, refl, not, ◌&&◌, Option, some, List, [], ◌∷◌, ◌++◌, map, ◌==◌, if◌then◌else◌, arith,
  Bool-cases, Option-cases, inl, inr, ◌⊎◌, ap, ◌∙◌, ◌||◌, Bool-elim, ap, ◌∙◌, ◌||◌, Bool-elim,
}
use my_oj.Prelude.Assoc.{get2, set2, get-set, get2-set2}
use my_oj.Models.Types.{Key}
use my_oj.Models.Time.{Time}
use my_oj.Mq.Messages.{ResultMessage}
use my_oj.Scoring.Oi
use my_oj.Scoring.Oi.{Strategy, strategy_apply, new_registry}
use my_oj.Scoring.Rank.{Runtime}
use my_oj.Ranking.Board.{ContestMeta, BoardSnapshot, board_rows}
use my_oj.Ranking.Service.{
  ContestKeys, RankingState, Loaders, Faults, acked, failed, keys_of, put_keys, cache_get,
  rebuild_snapshot, publish_snapshot, update_entry, next_entry, integrate_result, broadcast,
  process_contest_result, handle_result,
}

keys_of-put_keys :
    (c d : Key) (k : ContestKeys) (st : RankingState)
    → keys_of c (put_keys d k st) ≡ (if d == c then k else keys_of c st)
keys_of-put_keys c d k st = ground (arith, get-set d c k st.contests)

-- Two states agree on the cells and the reveal flag of a contest.
record SameCells (a b : ContestKeys) : Type 0 where
  entries : a.entries ≡ b.entries
  revealed : a.revealed ≡ b.revealed

cache_get-keys :
    (ld : Loaders) (now : Time) (id c : Key) (st : RankingState)
    → keys_of c (cache_get ld now id st).0 ≡ keys_of c st
unfolding cache_get
cache_get-keys ld now id c st = ground arith

put_snapshot-SameCells :
    (c cid : Key) (x : Option BoardSnapshot) (st : RankingState)
    → SameCells
        (keys_of c (put_keys cid (record (keys_of cid st) { snapshot = x }) st))
        (keys_of c st)
put_snapshot-SameCells c cid x st =
    ground (arith, get-set cid c (record (keys_of cid st) { snapshot = x }) st.contests)

rebuild_snapshot-SameCells :
    (rt : Runtime) (ld : Loaders) (faults : Faults) (now : Time) (cid c : Key) (meta : ContestMeta)
    (strategy : Strategy) (st : RankingState)
    → SameCells
        (keys_of c (rebuild_snapshot rt ld faults now cid meta strategy st).0)
        (keys_of c st)
unfolding rebuild_snapshot
rebuild_snapshot-SameCells rt ld faults now cid c meta strategy st =
    elim (Bool-cases faults.hgetall) [
      | inl fails ↦ rw (fails, rebuild_snapshot) same
      | inr reads ↦ elim (Option-cases (ld.contest_problems cid)) [
        | inl missing ↦ rw (reads, missing, rebuild_snapshot) same
        | inr (labels, found) ↦ elim (Option-cases (ld.usernames users)) [
          | inl missing ↦ rw (reads, found, missing, rebuild_snapshot) same
          | inr (names, known) ↦ elim (Bool-cases faults.set) [
            | inl fails ↦ rw (reads, found, known, fails, rebuild_snapshot) same
            | inr stores ↦
                rw (reads, found, known, stores, rebuild_snapshot)
                  (put_snapshot-SameCells c cid _ st)
          ]
        ]
      ]
    ]
  where
    users : List Key
    users =
        map (λ r. r.user_id)
          (board_rows rt meta strategy (not faults.exists && (keys_of cid st).revealed)
            (map (λ f. f.2) (keys_of cid st).entries))

    same : SameCells (keys_of c st) (keys_of c st)
    same = record { entries = refl; revealed = refl }

publish_snapshot-SameCells :
    (faults : Faults) (cid c : Key) (snap : BoardSnapshot) (st : RankingState)
    → SameCells (keys_of c (publish_snapshot faults cid snap st).0) (keys_of c st)
unfolding publish_snapshot
publish_snapshot-SameCells faults cid c snap st = ground (
  arith,
  get-set cid c (record (keys_of cid st) { events = (keys_of cid st).events ++ snap ∷ [] })
      st.contests,
)

update_entry-keys :
    (faults : Faults) (cid c : Key) (meta : ContestMeta) (strategy : Strategy) (r : ResultMessage)
    (st : RankingState)
    → keys_of c (update_entry faults cid meta strategy r st) ≡ (
        if cid == c
        then record (keys_of cid st) {
          entries =
              set2 r.user_id r.problem_id
                (next_entry faults meta strategy r (keys_of cid st))
                (keys_of cid st).entries;
        }
        else keys_of c st)
unfolding update_entry
update_entry-keys faults cid c meta _ r st = keys_of-put_keys c cid _ st

update_entry-cells :
    (faults : Faults) (cid c u p : Key) (meta : ContestMeta) (strategy : Strategy)
    (r : ResultMessage) (st : RankingState)
    → (c ≢ cid) ⊎ ((u ≢ r.user_id) ⊎ (p ≢ r.problem_id))
    → (get2 u p (keys_of c (update_entry faults cid meta strategy r st)).entries
        ≡ get2 u p (keys_of c st).entries)
      × ((keys_of c (update_entry faults cid meta strategy r st)).revealed
          ≡ (keys_of c st).revealed)
update_entry-cells faults cid c u p meta strategy r st other = elim (Bool-cases (cid == c)) [
  | inl here ↦
      let same : cid ≡ c = ground arith in
      rw (update_entry-keys faults cid c meta strategy r st, here)
        (ground (
          arith,
          get2-set2 r.user_id r.problem_id u p (next_entry faults meta strategy r (keys_of cid st))
              (keys_of cid st).entries,
        ))
  | inr away ↦ rw (update_entry-keys faults cid c meta strategy r st, away) (refl, refl)
]

-- The cells that a result is not about.
abbrev pub IsOther : Key → Key → Key → Key → ResultMessage → Type 0
IsOther c u p cid r = (c ≢ cid) ⊎ ((u ≢ r.user_id) ⊎ (p ≢ r.problem_id))

broadcast-SameCells :
    (rt : Runtime) (ld : Loaders) (faults : Faults) (now : Time) (cid c : Key) (meta : ContestMeta)
    (strategy : Strategy) (st : RankingState)
    → SameCells (keys_of c (broadcast rt ld faults now cid meta strategy st).0) (keys_of c st)
unfolding broadcast
broadcast-SameCells rt ld faults now cid c meta strategy st =
    let kept = rebuild_snapshot-SameCells rt ld faults now cid c meta strategy st in
    elim (Option-cases (rebuild_snapshot rt ld faults now cid meta strategy st).1) [
      | inl none_built ↦ rw (none_built, broadcast) kept
      | inr (snap, built) ↦
          let sent =
            publish_snapshot-SameCells faults cid c snap
              (rebuild_snapshot rt ld faults now cid meta strategy st).0 in
          rw (built, broadcast)
            (record {
              entries = sent.entries ∙ kept.entries;
              revealed = sent.revealed ∙ kept.revealed;
            })
    ]

integrate_result-cells :
    (rt : Runtime) (ld : Loaders) (faults : Faults) (now : Time) (cid c u p : Key)
    (meta : ContestMeta) (strategy : Strategy) (r : ResultMessage) (st : RankingState)
    → IsOther c u p cid r
    → (get2 u p (keys_of c (integrate_result rt ld faults now cid meta strategy r st).0).entries
        ≡ get2 u p (keys_of c st).entries)
      × ((keys_of c (integrate_result rt ld faults now cid meta strategy r st).0).revealed
          ≡ (keys_of c st).revealed)
unfolding integrate_result
integrate_result-cells rt ld faults now cid c u p meta strategy r st other =
    let sent =
      broadcast-SameCells rt ld faults now cid c meta strategy
        (update_entry faults cid meta strategy r st) in
    let (cell, flag) = update_entry-cells faults cid c u p meta strategy r st other in
    Bool-elim faults.hset
      (λ b.
        let st' =
          (if b
            then (st, failed)
            else broadcast rt ld faults now cid meta strategy
                (update_entry faults cid meta strategy r st)).0 in
        (get2 u p (keys_of c st').entries ≡ get2 u p (keys_of c st).entries)
        × ((keys_of c st').revealed ≡ (keys_of c st).revealed))
      (refl, refl) (ap (get2 u p) sent.entries ∙ cell, sent.revealed ∙ flag)

process_contest_result-cells :
    (rt : Runtime) (ld : Loaders) (faults : Faults) (now : Time) (cid c u p : Key)
    (r : ResultMessage) (st : RankingState)
    → IsOther c u p cid r
    → (get2 u p (keys_of c (process_contest_result rt ld faults now cid r st).0).entries
        ≡ get2 u p (keys_of c st).entries)
      × ((keys_of c (process_contest_result rt ld faults now cid r st).0).revealed
          ≡ (keys_of c st).revealed)
unfolding process_contest_result
process_contest_result-cells rt ld faults now cid c u p r st other =
    elim (Option-cases (cache_get ld now cid st).1) [
      | inl missing ↦ rw (missing, process_contest_result) same
      | inr (meta, found) ↦ elim (Option-cases (Oi.get new_registry meta.contest_type)) [
        | inl unknown ↦ rw (found, unknown, process_contest_result) same
        | inr (strategy, known) ↦
            let (cell, flag) =
              integrate_result-cells rt ld faults now cid c u p meta strategy r st' other in
            rw (found, known, process_contest_result) (cell ∙ same.0, flag ∙ same.1)
      ]
    ]
  where
    st' : RankingState
    st' = (cache_get ld now cid st).0

    same :
        (get2 u p (keys_of c st').entries ≡ get2 u p (keys_of c st).entries)
        × ((keys_of c st').revealed ≡ (keys_of c st).revealed)
    same = rw (cache_get-keys ld now cid c st) (refl, refl)

-- A judge result changes the cell of its user and problem in its contest at most: every other
-- cell, every other contest and every reveal flag stay as they were, whichever commands fail.
pub handle_result-cells :
    (rt : Runtime) (ld : Loaders) (faults : Faults) (now : Time) (cid c u p : Key)
    (r : ResultMessage) (st : RankingState)
    → r.contest_id ≡ some cid
    → IsOther c u p cid r
    → let after = (handle_result rt ld faults now (some r) st).0 in
      (get2 u p (keys_of c after).entries ≡ get2 u p (keys_of c st).entries)
      × ((keys_of c after).revealed ≡ (keys_of c st).revealed)
unfolding handle_result
handle_result-cells rt ld faults now cid c u p r st here other =
    let kept = process_contest_result-cells rt ld faults now cid c u p r st other in
    rw (here, handle_result)
      (Bool-elim (r.user_id == 0 || r.problem_id == 0)
        (λ b.
          let st' =
            (if b then (st, acked) else process_contest_result rt ld faults now cid r st).0 in
          (get2 u p (keys_of c st').entries ≡ get2 u p (keys_of c st).entries)
          × ((keys_of c st').revealed ≡ (keys_of c st).revealed))
        (refl, refl) kept)
