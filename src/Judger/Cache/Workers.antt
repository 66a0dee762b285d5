-- ===== src/Judger/Cache/Workers.antt =====
-- testcase_cache.go: the workers of a node at the cache, as a sequence of the parts of
-- `EnsureTestcases` that hold the lock, in any order.
use Prim.Native.String.{String}
use my_oj.Prelude.{Bool, true, false, Option, none, some, List, [], ◌∷◌, ◌++◌, ◌==◌, if◌then◌else◌}
use my_oj.Prelude.Sets.{has, remove}
use my_oj.Models.Types.{Key}
use my_oj.Models.Time.{Time}
use my_oj.Models.Judging.{Bytes}
use my_oj.Judger.Cache.{
  TestcaseCache, Arrival, hit, waits, downloads, ensure_start, confirm_local, ensure_finish,
  indexed,
}

-- The cache, the problems that a worker downloads at the moment, and those that a worker waits for:
-- a problem stands once for each such worker.
pub record Node : Type 0 where
  pub cache : TestcaseCache
  pub downloading : List Key
  pub waiting : List Key

abbrev pub idle_node : TestcaseCache → Node
idle_node c = record { cache = c; downloading = []; waiting = [] }

-- A worker calls `EnsureTestcases`; one that downloads finds its copy current in `refresh`; one that
-- downloads comes back from `refresh`, with a result or an error, and all that wait for it go on. A
-- panic in `refresh`, after which the source never gives the slot back, is not a part.
pub data Part : Type 0 where
  arrive : Time → Key → Part
  confirm : Time → Key → Part
  finish : Time → Key → Option (String × Bytes) → Part

-- All but the waiting workers of one problem.
unfoldable pub released : Key → List Key → List Key
released k [] = []
released k (j ∷ js) = if j == k then released k js else j ∷ released k js

abbrev pub arrived : Key → Node → TestcaseCache × Arrival → Node
arrived k n (c, hit dir) = record n { cache = c }
arrived k n (c, waits) = record n { cache = c; waiting = k ∷ n.waiting }
arrived k n (c, downloads) = record n { cache = c; downloading = k ∷ n.downloading }

abbrev pub finished : Time → Key → Option (String × Bytes) → Node → Node
finished now k r n = record {
  cache = (ensure_finish now k r n.cache).0;
  downloading = remove k n.downloading;
  waiting = released k n.waiting;
}

-- Only a worker that downloads confirms or finishes.
unfoldable pub step : Part → Node → Node
step (arrive now k) n = arrived k n (ensure_start now k n.cache)
step (confirm now k) n =
    if has k n.downloading then record n { cache = confirm_local now k n.cache } else n
step (finish now k r) n = if has k n.downloading then finished now k r n else n

unfoldable pub run : List Part → Node → Node
run [] n = n
run (p ∷ ps) n = run ps (step p n)

abbrev pub used_by : Key → TestcaseCache × Arrival → List Key
used_by k (c, hit dir) = k ∷ []
used_by k (c, waits) = []
used_by k (c, downloads) = []

abbrev pub used_if : Bool → Key → List Key
used_if true k = k ∷ []
used_if false k = []

abbrev pub is_some {ℓ} : {A : Type ℓ} → Option A → Bool
is_some none = false
is_some (some a) = true

-- The problem whose entry a part uses: a hit, a copy that is current, or a download that succeeded.
abbrev pub uses : Part → Node → List Key
uses (arrive now k) n = used_by k (ensure_start now k n.cache)
uses (confirm now k) n = if has k n.downloading then used_if (is_some (indexed k n.cache)) k else []
uses (finish now k r) n = if has k n.downloading then used_if (is_some r) k else []

-- The problems used on the way, the latest first, in front of those used before.
unfoldable pub history : List Part → Node → List Key → List Key
history [] n past = past
history (p ∷ ps) n past = history ps (step p n) (uses p n ++ past)
