-- ===== src/Judger/Cache/Recent.antt =====
-- testcase_cache.go: which entries the cache keeps.
use Prim.Native.String.{String}
use my_oj.Prelude.{
  ℕ, zero, suc, ◌≤◌, ◌≡◌, refl, sym, ap, subst, ◌∙◌, Option, none, some, List, [], ◌∷◌, ◌++◌,
  length, take, Bool-cases, Option-cases, inl, inr, arith,
}
use my_oj.Prelude.Sets.{has, remove}
use my_oj.Models.Types.{Key}
use my_oj.Models.Time.{Time}
use my_oj.Models.Judging.{Bytes}
use my_oj.Judger.Cache.{TestcaseCache, keys, indexed, to_front, confirm_local, ensure_finish}
use my_oj.Judger.Cache.Keys.{take-remove-take}
use my_oj.Judger.Cache.Touched.{IsTouched, to_front-IsTouched, promote_entry-IsTouched}
use my_oj.Judger.Cache.Workers.{
  Node, Part, arrive, confirm, finish, arrived, finished, step, run, uses, used_by, used_if,
  is_some, history,
}
use my_oj.Judger.Cache.Sound.{IsSound, ensure_start-cases, step-IsSound}

-- Problems in the order of their last use, of a history with the latest use first.
unfoldable pub recent : List Key → List Key
recent [] = []
recent (k ∷ past) = k ∷ remove k (recent past)

-- The cache keeps the most recently used problems, in that order.
abbrev pub IsRecent : List Key → TestcaseCache → Type 0
IsRecent past c = keys c.lru_list ≡ take c.max_entries (recent past)

take-remove_kept :
    (max_entries : ℕ) (k : Key) (ks : List Key)
    → take max_entries (k ∷ remove k (take max_entries ks)) ≡ take max_entries (k ∷ remove k ks)
take-remove_kept zero k ks = refl
take-remove_kept (suc n) k ks = ap (λ js. k ∷ js) (take-remove-take n k ks)

touched-IsRecent :
    (k : Key) (past : List Key) (c c' : TestcaseCache)
    → IsTouched k c c'
    → IsRecent past c
    → IsRecent (k ∷ past) c'
unfolding recent
touched-IsRecent k past c c' t r =
    t.in_front
    ∙ ap (λ ks. take c.max_entries (k ∷ remove k ks)) r
    ∙ take-remove_kept c.max_entries k (recent past)
    ∙ ap (λ n. take n (k ∷ remove k (recent past))) (sym t.touched_max)

module _ (max_entries : ℕ) (past : List Key) (n : Node) (sound : IsSound max_entries n)
    (before : IsRecent past n.cache) where
  fits : length n.cache.lru_list ≤ n.cache.max_entries
  fits = omega (arith, sound.bounded, sound.limit)

  arrive-IsRecent :
      (now : Time) (k : Key)
      → IsRecent (uses (arrive now k) n ++ past) (step (arrive now k) n).cache
  unfolding step
  arrive-IsRecent now k = elim (ensure_start-cases now k n.cache) [
    | inl (e, found, here) ↦
        subst (λ r. IsRecent (used_by k r ++ past) (arrived k n r).cache) (sym here)
          (touched-IsRecent k past n.cache (to_front e n.cache)
            (to_front-IsTouched k n.cache e e found refl sound.indexed_keys fits) before)
    | inr (inl (busy, here)) ↦
        subst (λ r. IsRecent (used_by k r ++ past) (arrived k n r).cache) (sym here) before
    | inr (inr (free, here)) ↦
        subst (λ r. IsRecent (used_by k r ++ past) (arrived k n r).cache) (sym here) before
  ]

  confirm-IsRecent :
      (now : Time) (k : Key)
      → IsRecent (uses (confirm now k) n ++ past) (step (confirm now k) n).cache
  unfolding step confirm_local
  confirm-IsRecent now k = elim (Bool-cases (has k n.downloading)) [
    | inr none_here ↦ rw none_here before
    | inl here ↦ elim (Option-cases (indexed k n.cache)) [
      | inl missing ↦ rw (here, missing, confirm_local) before
      | inr (e, found) ↦
          rw (here, found, confirm_local)
            (touched-IsRecent k past n.cache (to_front (record e { validated_at = now }) n.cache)
              (to_front-IsTouched k n.cache e (record e { validated_at = now }) found refl
                sound.indexed_keys fits)
              before)
    ]
  ]

  finished-IsRecent :
      (now : Time) (k : Key) (r : Option (String × Bytes))
      → IsRecent (used_if (is_some r) k ++ past) (finished now k r n).cache
  unfolding ensure_finish
  finished-IsRecent now k none = before
  finished-IsRecent now k (some (dir, etag)) =
      touched-IsRecent k past (record n.cache { in_progress = remove k n.cache.in_progress })
        (ensure_finish now k (some (dir, etag)) n.cache).0
        (promote_entry-IsTouched now k dir etag
          (record n.cache { in_progress = remove k n.cache.in_progress }) sound.indexed_keys fits)
        before

  step-IsRecent : (p : Part) → IsRecent (uses p n ++ past) (step p n).cache
  unfolding step
  step-IsRecent (arrive now k) = arrive-IsRecent now k
  step-IsRecent (confirm now k) = confirm-IsRecent now k
  step-IsRecent (finish now k r) = elim (Bool-cases (has k n.downloading)) [
    | inr none_here ↦ rw none_here before
    | inl here ↦ rw here (finished-IsRecent now k r)
  ]

-- From a sound node whose list is in the order of the last uses, however the workers interleave: the
-- cache keeps the problems used most recently, as many as fit, in the order of their last use.
pub run-IsRecent :
    (max_entries : ℕ) (parts : List Part) (past : List Key) (n : Node)
    → IsSound max_entries n
    → IsRecent past n.cache
    → IsRecent (history parts n past) (run parts n).cache
unfolding run history
run-IsRecent max_entries [] past n sound before = before
run-IsRecent max_entries (p ∷ parts) past n sound before =
    run-IsRecent max_entries parts (uses p n ++ past) (step p n)
      (step-IsSound max_entries n sound p) (step-IsRecent max_entries past n sound before p)
