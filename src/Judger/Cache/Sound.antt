-- ===== src/Judger/Cache/Sound.antt =====
-- testcase_cache.go: what holds however the workers of a node interleave.
use Prim.Native.String.{String}
use my_oj.Prelude.{
  ℕ, ◌≤◌, ◌≡◌, refl, sym, ap, subst, ◌∙◌, true, false, ◌⊎◌, Option, none, some, List, [], ◌∷◌,
  length, length-take, ◌==◌, Bool-cases, Option-cases, inl, inr, arith,
}
use my_oj.Prelude.Sets.{Distinct, has, has-remove, remove, remove-Distinct}
use my_oj.Models.Types.{Key}
use my_oj.Models.Time.{Time}
use my_oj.Models.Judging.{Bytes}
use my_oj.Judger.Cache.{
  TcEntry, TestcaseCache, hit, waits, downloads, keys, indexed, to_front, is_fresh, ensure_start,
  confirm_local, ensure_finish,
}
use my_oj.Judger.Cache.Keys.{keys-length}
use my_oj.Judger.Cache.Valid.{IsIndexed}
use my_oj.Judger.Cache.Touched.{IsTouched, to_front-IsTouched, promote_entry-IsTouched}
use my_oj.Judger.Cache.Workers.{
  Node, Part, arrive, confirm, finish, released, arrived, finished, step, run,
}

-- The list keeps its bound and the index, each problem has at most one worker that downloads it, which
-- holds its slot, and each worker that waits has one to wait for.
pub record IsSound (max_entries : ℕ) (n : Node) : Type 0 where
  pub limit : n.cache.max_entries ≡ max_entries
  pub bounded : length n.cache.lru_list ≤ max_entries
  pub indexed_keys : IsIndexed n.cache.index (keys n.cache.lru_list)
  pub slots : n.cache.in_progress ≡ n.downloading
  pub one_each : Distinct n.downloading
  pub attended : (k : Key) → has k n.waiting ≡ true → has k n.downloading ≡ true

-- The three answers of the first locked part.
pub ensure_start-cases :
    (now : Time) (k : Key) (c : TestcaseCache)
    → ((e : TcEntry) × (indexed k c ≡ some e)
        × (ensure_start now k c ≡ (to_front e c, hit e.local_dir)))
      ⊎ ((has k c.in_progress ≡ true) × (ensure_start now k c ≡ (c, waits)))
      ⊎ ((has k c.in_progress ≡ false)
          × (ensure_start now k c ≡ (record c { in_progress = k ∷ c.in_progress }, downloads)))
unfolding ensure_start
ensure_start-cases now k c = elim (Option-cases (indexed k c)) [
  | inl missing ↦ inr (coalesced missing)
  | inr (e, found) ↦ elim (Bool-cases (is_fresh now e)) [
    | inl fresh ↦ inl (e, found, rw (found, ensure_start) (rw fresh refl))
    | inr stale ↦ elim (Bool-cases (has k c.in_progress)) [
      | inl busy ↦ inr (inl (busy, rw (found, ensure_start) (rw stale (rw busy refl))))
      | inr free ↦ inr (inr (free, rw (found, ensure_start) (rw stale (rw free refl))))
    ]
  ]
]
  where
    coalesced :
        indexed k c ≡ none
        → ((has k c.in_progress ≡ true) × (ensure_start now k c ≡ (c, waits)))
          ⊎ ((has k c.in_progress ≡ false)
              × (ensure_start now k c ≡ (record c { in_progress = k ∷ c.in_progress }, downloads)))
    coalesced missing = elim (Bool-cases (has k c.in_progress)) [
      | inl busy ↦ inl (busy, rw (missing, ensure_start) (rw busy refl))
      | inr free ↦ inr (free, rw (missing, ensure_start) (rw free refl))
    ]

touched_IsBounded :
    (k : Key) (max_entries : ℕ) (c c' : TestcaseCache)
    → c.max_entries ≡ max_entries
    → IsTouched k c c'
    → length c'.lru_list ≤ max_entries
touched_IsBounded k max_entries c c' e t = omega (
  arith,
  ap length t.in_front,
  length-take c.max_entries (k ∷ remove k (keys c.lru_list)),
  keys-length c'.lru_list,
  e,
)

still_waiting :
    (k j : Key) (ks : List Key)
    → has j (released k ks) ≡ true
    → (has j ks ≡ true) × ((k == j) ≡ false)
unfolding has released
still_waiting k j [] h = cc
still_waiting k j (i ∷ ks) h = ground (arith, still_waiting k j ks)

module _ (max_entries : ℕ) (n : Node) (sound : IsSound max_entries n) where
  -- A touch of the cache that leaves the workers where they are.
  touched_node :
      (k : Key) (c' : TestcaseCache)
      → IsTouched k n.cache c'
      → IsSound max_entries (record n { cache = c' })
  touched_node k c' t = record {
    limit = t.touched_max ∙ sound.limit;
    bounded = touched_IsBounded k max_entries n.cache c' sound.limit t;
    indexed_keys = t.touched_indexed;
    slots = t.touched_slots ∙ sound.slots;
    one_each = sound.one_each;
    attended = sound.attended;
  }

  arrive-IsSound : (now : Time) (k : Key) → IsSound max_entries (step (arrive now k) n)
  unfolding step has
  arrive-IsSound now k = elim (ensure_start-cases now k n.cache) [
    | inl (e, found, here) ↦
        subst (λ r. IsSound max_entries (arrived k n r)) (sym here)
          (touched_node k (to_front e n.cache) (
            to_front-IsTouched k n.cache e e found refl sound.indexed_keys
              (omega (arith, sound.bounded, sound.limit))))
    | inr (inl (busy, here)) ↦
        subst (λ r. IsSound max_entries (arrived k n r)) (sym here)
          record {
            limit = sound.limit;
            bounded = sound.bounded;
            indexed_keys = sound.indexed_keys;
            slots = sound.slots;
            one_each = sound.one_each;
            attended = λ j h. ground (arith, sound.attended j, ap (has k) sound.slots, busy);
          }
    | inr (inr (free, here)) ↦
        subst (λ r. IsSound max_entries (arrived k n r)) (sym here)
          record {
            limit = sound.limit;
            bounded = sound.bounded;
            indexed_keys = sound.indexed_keys;
            slots = ap (λ ks. k ∷ ks) sound.slots;
            one_each = (sym (ap (has k) sound.slots) ∙ free, sound.one_each);
            attended = λ j h. ground (arith, sound.attended j);
          }
  ]

  confirm-IsSound : (now : Time) (k : Key) → IsSound max_entries (step (confirm now k) n)
  unfolding step confirm_local
  confirm-IsSound now k = elim (Bool-cases (has k n.downloading)) [
    | inr none_here ↦ rw none_here sound
    | inl here ↦ elim (Option-cases (indexed k n.cache)) [
      | inl missing ↦ rw (here, missing, confirm_local) sound
      | inr (e, found) ↦
          rw (here, found, confirm_local)
            (touched_node k (to_front (record e { validated_at = now }) n.cache) (
              to_front-IsTouched k n.cache e (record e { validated_at = now }) found refl
                sound.indexed_keys (omega (arith, sound.bounded, sound.limit))))
    ]
  ]

  -- The slot is given back.
  abbrev given_back : Key → TestcaseCache
  given_back k = record n.cache { in_progress = remove k n.cache.in_progress }

  still_attended :
      (k j : Key) → has j (released k n.waiting) ≡ true → has j (remove k n.downloading) ≡ true
  still_attended k j h =
      let (waits_on, other) = still_waiting k j n.waiting h in
      ground (arith, has-remove j k n.downloading sound.one_each, sound.attended j waits_on, other)

  finished-IsSound :
      (now : Time) (k : Key) (r : Option (String × Bytes))
      → IsSound max_entries (finished now k r n)
  unfolding ensure_finish
  finished-IsSound now k none = record {
    limit = sound.limit;
    bounded = sound.bounded;
    indexed_keys = sound.indexed_keys;
    slots = ap (remove k) sound.slots;
    one_each = remove-Distinct k n.downloading sound.one_each;
    attended = still_attended k;
  }
  finished-IsSound now k (some (dir, etag)) =
      let t =
        promote_entry-IsTouched now k dir etag (given_back k) sound.indexed_keys
          (omega (arith, sound.bounded, sound.limit)) in
      record {
        limit = t.touched_max ∙ sound.limit;
        bounded =
            touched_IsBounded k max_entries (given_back k)
              (ensure_finish now k (some (dir, etag)) n.cache).0 sound.limit t;
        indexed_keys = t.touched_indexed;
        slots = t.touched_slots ∙ ap (remove k) sound.slots;
        one_each = remove-Distinct k n.downloading sound.one_each;
        attended = still_attended k;
      }

  pub step-IsSound : (p : Part) → IsSound max_entries (step p n)
  unfolding step
  step-IsSound (arrive now k) = arrive-IsSound now k
  step-IsSound (confirm now k) = confirm-IsSound now k
  step-IsSound (finish now k r) = elim (Bool-cases (has k n.downloading)) [
    | inr none_here ↦ rw none_here sound
    | inl here ↦ rw here (finished-IsSound now k r)
  ]

-- From a sound node, however many workers arrive, in any order and with any outcomes of their
-- downloads: the list has at most `max_entries` entries, the index has exactly its keys, no problem is
-- downloaded by two workers at once, and each worker that waits has a download to wait for.
pub run-IsSound :
    (max_entries : ℕ) (parts : List Part) (n : Node)
    → IsSound max_entries n
    → IsSound max_entries (run parts n)
unfolding run
run-IsSound max_entries [] n sound = sound
run-IsSound max_entries (p ∷ parts) n sound =
    run-IsSound max_entries parts (step p n) (step-IsSound max_entries n sound p)
