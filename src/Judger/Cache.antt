-- ===== src/Judger/Cache.antt =====
-- internal/judger/testcase_cache.go: the cache of test cases in memory. Each definition is what one
-- caller does while it holds the lock; an element of the list is named by the problem of its entry.
pub mod Keys
pub mod Valid
pub mod Touched
pub mod Workers
pub mod Sound
pub mod Recent
pub mod Start
pub mod Disk
pub mod Extracted
pub mod Swap
use Prim.Native.String.{String}
use my_oj.Prelude.{
  ℕ, zero, suc, ◌≡◌, Bool, true, false, ◌||◌, Option, none, some, List, [], ◌∷◌, ◌++◌, length, ltb,
  ◌==◌, if◌then◌else◌,
}
use my_oj.Prelude.Order.{Sorter}
use my_oj.Prelude.Int.{ℤ, pos, ltb_ℤ, pos_part}
use my_oj.Prelude.Sets.{
  Distinct, has, has-append, has-insert, has-remove, insert, length-remove_present, remove,
  remove-Distinct, remove_absent,
}
use my_oj.Models.Types.{Key}
use my_oj.Models.Time.{Time, sub_time}
use my_oj.Models.Judging.{Bytes}

pub record TcEntry : Type 0 where
  pub problem_id : Key
  pub local_dir : String
  pub etag : Bytes
  pub validated_at : Time

-- The front of the list is the most recently used entry. `index` and `in_progress` are the keys of the
-- two maps.
pub record TestcaseCache : Type 0 where
  pub max_entries : ℕ
  pub lru_list : List TcEntry
  pub index : List Key
  pub in_progress : List Key

-- Five minutes.
abbrev pub etag_ttl : ℕ
etag_ttl = 300_000_000_000

unfoldable pub new_testcase_cache : ℤ → TestcaseCache
new_testcase_cache max_entries = record {
  max_entries = if ltb_ℤ (pos 0) max_entries then pos_part max_entries else 200;
  lru_list = [];
  index = [];
  in_progress = [];
}

abbrev pub keys : List TcEntry → List Key
keys [] = []
keys (e ∷ l) = e.problem_id ∷ keys l

unfoldable pub entry_of : Key → List TcEntry → Option TcEntry
entry_of k [] = none
entry_of k (e ∷ l) = if e.problem_id == k then some e else entry_of k l

unfoldable pub without : Key → List TcEntry → List TcEntry
without k [] = []
without k (e ∷ l) = let rest = without k l in if e.problem_id == k then l else e ∷ rest

-- The entry of the element that the index has for a problem.
unfoldable pub indexed : Key → TestcaseCache → Option TcEntry
indexed k c = if has k c.index then entry_of k c.lru_list else none

-- `MoveToFront`, for an entry that may have changed.
abbrev pub to_front : TcEntry → TestcaseCache → TestcaseCache
to_front e c = record c { lru_list = e ∷ without e.problem_id c.lru_list }

-- What a caller of `EnsureTestcases` finds: a fresh directory, a download by someone else that it
-- waits for, or its own turn to download.
pub data Arrival : Type 0 where
  hit : String → Arrival
  waits downloads : Arrival

abbrev pub is_fresh : Time → TcEntry → Bool
is_fresh now e = ltb_ℤ (sub_time now e.validated_at) (pos etag_ttl)

abbrev pub coalesce : Key → TestcaseCache → TestcaseCache × Arrival
coalesce k c =
    if has k c.in_progress
    then (c, waits)
    else (record c { in_progress = k ∷ c.in_progress }, downloads)

abbrev pub ensure_found : Time → Key → TestcaseCache → Option TcEntry → TestcaseCache × Arrival
ensure_found now k c none = coalesce k c
ensure_found now k c (some e) =
    if is_fresh now e then (to_front e c, hit e.local_dir) else coalesce k c

-- The first locked part of `EnsureTestcases`.
unfoldable pub ensure_start : Time → Key → TestcaseCache → TestcaseCache × Arrival
ensure_start now k c = ensure_found now k c (indexed k c)

abbrev pub revalidate : Time → TestcaseCache → Option TcEntry → TestcaseCache
revalidate now c none = c
revalidate now c (some e) = to_front (record e { validated_at = now }) c

-- The locked part of `refresh`, when the local copy is current.
unfoldable pub confirm_local : Time → Key → TestcaseCache → TestcaseCache
confirm_local now k c = revalidate now c (indexed k c)

-- The list without its last element, and that element.
unfoldable pub pop_back : TcEntry → List TcEntry → List TcEntry × TcEntry
pop_back e [] = ([], e)
pop_back e (f ∷ l) = let (kept, back) = pop_back f l in (e ∷ kept, back)

abbrev pub evict_back : TestcaseCache → List TcEntry → TestcaseCache × List String
evict_back c [] = (c, [])
evict_back c (e ∷ l) =
    let (kept, back) = pop_back e l in
    (record c { lru_list = kept; index = remove back.problem_id c.index }, back.local_dir ∷ [])

-- The loop of `evictIfNeeded`, on fuel, with the directories that are to be deleted.
unfoldable pub evict_from : ℕ → TestcaseCache → List String → TestcaseCache × List String
evict_from zero c dirs = (c, dirs)
evict_from (suc fuel) c dirs =
    let (c', evicted) = evict_back c c.lru_list in
    let rest = evict_from fuel c' (evicted ++ dirs) in
    if ltb c.max_entries (length c.lru_list) then rest else (c, dirs)

unfoldable pub evict_if_needed : TestcaseCache → TestcaseCache × List String
evict_if_needed c = evict_from (length c.lru_list) c []

abbrev pub promote_found :
    Time → Key → String → Bytes → TestcaseCache → Option TcEntry → TestcaseCache × List String
promote_found now k dir etag c (some e) =
    (to_front (record e { etag = etag; validated_at = now }) c, [])
promote_found now k dir etag c none =
    let e : TcEntry = record { problem_id = k; local_dir = dir; etag = etag; validated_at = now } in
    evict_if_needed (record c { lru_list = e ∷ c.lru_list; index = insert k c.index })

-- `promoteEntry`, given what the `.etag` file reads.
unfoldable pub promote_entry :
    Time → Key → String → Bytes → TestcaseCache → TestcaseCache × List String
promote_entry now k dir etag c = promote_found now k dir etag c (indexed k c)

-- The last locked part of `EnsureTestcases`: the directory and its ETag, or none for an error.
unfoldable pub ensure_finish :
    Time → Key → Option (String × Bytes) → TestcaseCache → TestcaseCache × List String
ensure_finish now k none c = (record c { in_progress = remove k c.in_progress }, [])
ensure_finish now k (some (dir, etag)) c =
    promote_entry now k dir etag (record c { in_progress = remove k c.in_progress })

-- A directory that `Prune` has found.
pub record DirEntry : Type 0 where
  pub problem_id : Key
  pub mtime : Time
  pub path : String
  pub etag : Bytes

abbrev pub newer : DirEntry → DirEntry → Bool
newer a b = ltb b.mtime a.mtime

unfoldable pub push_dirs : List DirEntry → TestcaseCache → TestcaseCache
push_dirs [] c = c
push_dirs (d ∷ ds) c =
    let e : TcEntry = record {
      problem_id = d.problem_id;
      local_dir = d.path;
      etag = d.etag;
      validated_at = 0;
    } in
    push_dirs ds
      (record c { lru_list = c.lru_list ++ (e ∷ []); index = insert d.problem_id c.index })

-- `Prune`, of the directories that it has found.
unfoldable pub prune : Sorter DirEntry → List DirEntry → TestcaseCache → TestcaseCache × List String
prune sorter dirs c = evict_if_needed (push_dirs (sorter.sort_slice newer dirs) c)
