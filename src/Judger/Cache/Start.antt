-- ===== src/Judger/Cache/Start.antt =====
-- testcase_cache.go: `Prune` at the start of a node, and what follows it.
use mathlib.Core.List.{
  Mem, Nodup, Nodup-cons, append_assoc, append-nil, mem-cons_self, mem-cons_of_mem,
}
use mathlib.Core.List.Perm
use my_oj.Prelude.{
  ◌≡◌, refl, sym, ap, subst, ◌∙◌, false, List, [], ◌∷◌, ◌++◌, length, length-take, map, take, ◌==◌,
  Bool-cases, inl, inr, arith,
}
use my_oj.Prelude.Int.{ℤ}
use my_oj.Prelude.Order.{Sorter}
use my_oj.Prelude.Sets.{Distinct, has, has-append, insert, remove_absent}
use my_oj.Models.Types.{Key}
use my_oj.Judger.Cache.{
  TcEntry, TestcaseCache, DirEntry, keys, newer, new_testcase_cache, push_dirs, prune,
}
use my_oj.Judger.Cache.Keys.{keys-append, keys-length}
use my_oj.Judger.Cache.Valid.{IsIndexed, IsEvicted, evict_if_needed-IsEvicted, push_back-IsIndexed}
use my_oj.Judger.Cache.Workers.{Part, Node, idle_node, run, history}
use my_oj.Judger.Cache.Sound.{IsSound, run-IsSound}
use my_oj.Judger.Cache.Recent.{IsRecent, recent, run-IsRecent}

abbrev pub problems : List DirEntry → List Key
problems ds = map (λ d. d.problem_id) ds

absent_of_not-mem : (k : Key) (ks : List Key) → ¬ Mem k ks → has k ks ≡ false
unfolding has
absent_of_not-mem k [] h = refl
absent_of_not-mem k (j ∷ ks) h = elim (Bool-cases (j == k)) [
  | inl e ↦
      let same : j ≡ k = ground arith in absurd (h (subst (λ i. Mem i (j ∷ ks)) same mem-cons_self))
  | inr e ↦ rw e (absent_of_not-mem k ks (λ m. h (mem-cons_of_mem j m)))
]

Nodup-Distinct : (ks : List Key) → Nodup ks → Distinct ks
Nodup-Distinct [] d = tt
Nodup-Distinct (k ∷ ks) d =
    let (out, d') = Nodup-cons.0 d in (absent_of_not-mem k ks out, Nodup-Distinct ks d')

sorted-Distinct :
    (sorter : Sorter DirEntry) (dirs : List DirEntry)
    → Nodup (problems dirs)
    → Distinct (problems (sorter.sort_slice newer dirs))
sorted-Distinct sorter dirs d =
    Nodup-Distinct (problems (sorter.sort_slice newer dirs))
      (Perm.nodup (Perm.symm (Perm.map (λ e. e.problem_id) (sorter.sort_slice-perm newer dirs))) d)

recent_of_Distinct : (ks : List Key) → Distinct ks → recent ks ≡ ks
unfolding recent
recent_of_Distinct [] d = refl
recent_of_Distinct (k ∷ ks) (out, d) =
    rw (recent_of_Distinct ks d) (ap (λ js. k ∷ js) (remove_absent k ks out))

-- Directories pushed behind distinct others.
record IsPushed (ds : List DirEntry) (c c' : TestcaseCache) : Type 0 where
  pushed_indexed : IsIndexed c'.index (keys c'.lru_list)
  pushed_keys : keys c'.lru_list ≡ keys c.lru_list ++ problems ds
  pushed_max : c'.max_entries ≡ c.max_entries
  pushed_slots : c'.in_progress ≡ c.in_progress

absent_before :
    (ks : List Key) (k : Key) (js : List Key) → Distinct (ks ++ (k ∷ js)) → has k ks ≡ false
unfolding has
absent_before [] k js d = refl
absent_before (i ∷ ks) k js (out, d) =
    ground (arith, has-append i ks (k ∷ js), absent_before ks k js d)

push_dirs-IsPushed :
    (ds : List DirEntry) (c : TestcaseCache)
    → IsIndexed c.index (keys c.lru_list)
    → Distinct (keys c.lru_list ++ problems ds)
    → IsPushed ds c (push_dirs ds c)
unfolding push_dirs
push_dirs-IsPushed [] c i d = record {
  pushed_indexed = i;
  pushed_keys = sym (append-nil (keys c.lru_list));
  pushed_max = refl;
  pushed_slots = refl;
}
push_dirs-IsPushed (e ∷ ds) c i d =
    let front : TcEntry = record {
      problem_id = e.problem_id;
      local_dir = e.path;
      etag = e.etag;
      validated_at = 0;
    } in
    let c' : TestcaseCache = record c {
      lru_list = c.lru_list ++ (front ∷ []);
      index = insert e.problem_id c.index;
    } in
    let ks : keys c'.lru_list ≡ keys c.lru_list ++ (e.problem_id ∷ []) =
      keys-append c.lru_list (front ∷ []) in
    let all : keys c'.lru_list ++ problems ds ≡ keys c.lru_list ++ problems (e ∷ ds) =
      ap (λ js. js ++ problems ds) ks
      ∙ append_assoc (keys c.lru_list) (e.problem_id ∷ []) (problems ds) in
    let rest =
      push_dirs-IsPushed ds c'
        (subst (IsIndexed c'.index) (sym ks) (
          push_back-IsIndexed e.problem_id c.index (keys c.lru_list)
            (absent_before (keys c.lru_list) e.problem_id (problems ds) d) i))
        (subst Distinct (sym all) d) in
    record {
      pushed_indexed = rest.pushed_indexed;
      pushed_keys = rest.pushed_keys ∙ all;
      pushed_max = rest.pushed_max;
      pushed_slots = rest.pushed_slots;
    }

-- A node at its start.
abbrev pub start_node : Sorter DirEntry → List DirEntry → ℤ → Node
start_node sorter dirs max_entries =
    idle_node (prune sorter dirs (new_testcase_cache max_entries)).0

module _ (sorter : Sorter DirEntry) (dirs : List DirEntry) (max_entries : ℤ)
    (one_each : Nodup (problems dirs)) where
  abbrev empty : TestcaseCache
  empty = new_testcase_cache max_entries

  abbrev sorted : List DirEntry
  sorted = sorter.sort_slice newer dirs

  start-IsPushed : IsPushed sorted empty (push_dirs sorted empty)
  unfolding new_testcase_cache
  start-IsPushed =
      push_dirs-IsPushed sorted empty
        (record { same = λ k. refl; distinct = tt; distinct_index = tt })
        (sorted-Distinct sorter dirs one_each)

  start-IsEvicted : IsEvicted (push_dirs sorted empty) (prune sorter dirs empty).0
  unfolding prune
  start-IsEvicted = evict_if_needed-IsEvicted (push_dirs sorted empty) start-IsPushed.pushed_indexed

  start_keys : keys (prune sorter dirs empty).0.lru_list ≡ take empty.max_entries (problems sorted)
  unfolding new_testcase_cache
  start_keys =
      start-IsEvicted.kept
      ∙ ap (λ n. take n (keys (push_dirs sorted empty).lru_list)) start-IsPushed.pushed_max
      ∙ ap (take empty.max_entries) start-IsPushed.pushed_keys

  start-IsSound : IsSound empty.max_entries (start_node sorter dirs max_entries)
  unfolding new_testcase_cache
  start-IsSound = record {
    limit = start-IsEvicted.same_max ∙ start-IsPushed.pushed_max;
    bounded = omega (
      arith,
      ap length start_keys,
      length-take empty.max_entries (problems sorted),
      keys-length (prune sorter dirs empty).0.lru_list,
    );
    indexed_keys = start-IsEvicted.evicted_indexed;
    slots = start-IsEvicted.same_slots ∙ start-IsPushed.pushed_slots;
    one_each = tt;
    attended = λ k h. h;
  }

  -- After a start with the directories of an earlier run, one for each problem, and however many
  -- workers then ask for test cases, in any order and with any outcomes of their downloads: the list
  -- has at most the configured number of entries, the index has exactly its keys, no problem is
  -- downloaded by two workers at once, and each worker that waits has a download to wait for.
  pub run_from_start-IsSound :
      (parts : List Part)
      → IsSound empty.max_entries (run parts (start_node sorter dirs max_entries))
  run_from_start-IsSound parts =
      run-IsSound empty.max_entries parts (start_node sorter dirs max_entries) start-IsSound

  start-IsRecent : IsRecent (problems sorted) (start_node sorter dirs max_entries).cache
  start-IsRecent =
      start_keys
      ∙ ap (λ n. take n (problems sorted))
          (sym (start-IsEvicted.same_max ∙ start-IsPushed.pushed_max))
      ∙ ap (take (prune sorter dirs empty).0.max_entries)
          (sym (recent_of_Distinct (problems sorted) (sorted-Distinct sorter dirs one_each)))

  -- The cache then holds the problems used most recently, as many as fit, in the order of their last
  -- use: by hits, by copies found to be current, and by downloads that succeeded; before these, by
  -- the times of the directories found at the start.
  pub run_from_start-IsRecent :
      (parts : List Part)
      → let start = start_node sorter dirs max_entries in
        IsRecent
          (history parts start (problems (sorter.sort_slice newer dirs)))
          (run parts start).cache
  run_from_start-IsRecent parts =
      run-IsRecent empty.max_entries parts (problems sorted) (start_node sorter dirs max_entries)
        start-IsSound start-IsRecent
