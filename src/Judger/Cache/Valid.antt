-- ===== src/Judger/Cache/Valid.antt =====
-- testcase_cache.go: what holds of the cache between the locked parts.
use Prim.Native.String.{String}
use my_oj.Prelude.{
  ℕ, zero, suc, ◌+◌, ◌≤◌, ◌≡◌, refl, sym, ap, subst, ◌∙◌, true, false, ◌||◌, List, [], ◌∷◌, ◌++◌,
  length, take, ltb, ◌==◌, if◌then◌else◌, Bool-cases, List-cases, inl, inr, arith, length-append,
}
use my_oj.Prelude.Sets.{Distinct, has, has-insert, has-remove, insert, remove, remove-Distinct}
use my_oj.Models.Types.{Key}
use my_oj.Judger.Cache.{
  TcEntry, TestcaseCache, keys, pop_back, evict_back, evict_from, evict_if_needed,
}
use my_oj.Judger.Cache.Keys.{
  keys-length, keys-pop_back, Distinct-append_one, append_one-Distinct, has-append_one,
  take-append_one, take_all,
}

-- The index has exactly the keys of the list, and each key stands once in both.
pub record IsIndexed (index ks : List Key) : Type 0 where
  pub same : (k : Key) → has k index ≡ has k ks
  pub distinct : Distinct ks
  pub distinct_index : Distinct index

insert-Distinct : (k : Key) (ks : List Key) → Distinct ks → Distinct (insert k ks)
insert-Distinct k ks d = elim (Bool-cases (has k ks)) [ inl e ↦ rw e d | inr e ↦ rw e (e, d) ]

pub front-IsIndexed :
    (k : Key) (index ks : List Key)
    → has k ks ≡ true
    → IsIndexed index ks
    → IsIndexed index (k ∷ remove k ks)
unfolding has
front-IsIndexed k index ks h i = record {
  same = λ j. ground (arith, i.same j, has-remove j k ks i.distinct);
  distinct = (ground (arith, has-remove k k ks i.distinct), remove-Distinct k ks i.distinct);
  distinct_index = i.distinct_index;
}

pub push-IsIndexed :
    (k : Key) (index ks : List Key)
    → has k ks ≡ false
    → IsIndexed index ks
    → IsIndexed (insert k index) (k ∷ ks)
unfolding has
push-IsIndexed k index ks h i = record {
  same = λ j. has-insert j k index ∙ ap (λ b. (k == j) || b) (i.same j);
  distinct = (h, i.distinct);
  distinct_index = insert-Distinct k index i.distinct_index;
}

pub push_back-IsIndexed :
    (k : Key) (index ks : List Key)
    → has k ks ≡ false
    → IsIndexed index ks
    → IsIndexed (insert k index) (ks ++ (k ∷ []))
push_back-IsIndexed k index ks h i = record {
  same =
      λ j. has-insert j k index ∙ ap (λ b. (k == j) || b) (i.same j) ∙ sym (has-append_one j ks k);
  distinct = append_one-Distinct ks k i.distinct h;
  distinct_index = insert-Distinct k index i.distinct_index;
}

pop-IsIndexed :
    (k : Key) (index ks : List Key)
    → IsIndexed index (ks ++ (k ∷ []))
    → IsIndexed (remove k index) ks
pop-IsIndexed k index ks i =
    let (d, out) = Distinct-append_one ks k i.distinct in
    record {
      same = λ j.
          ground
            (arith, has-remove j k index i.distinct_index, i.same j, has-append_one j ks k, out);
      distinct = d;
      distinct_index = remove-Distinct k index i.distinct_index;
    }

-- What an eviction makes of a cache: the first `max_entries` of its entries.
pub record IsEvicted (c c' : TestcaseCache) : Type 0 where
  pub evicted_indexed : IsIndexed c'.index (keys c'.lru_list)
  pub kept : keys c'.lru_list ≡ take c.max_entries (keys c.lru_list)
  pub same_max : c'.max_entries ≡ c.max_entries
  pub same_slots : c'.in_progress ≡ c.in_progress

evict_from-stops :
    (c : TestcaseCache)
    → IsIndexed c.index (keys c.lru_list)
    → length c.lru_list ≤ c.max_entries
    → IsEvicted c c
evict_from-stops c i h = record {
  evicted_indexed = i;
  kept = sym (take_all c.max_entries (keys c.lru_list) (omega (arith, keys-length c.lru_list, h)));
  same_max = refl;
  same_slots = refl;
}

-- One round.
pop_back-take :
    (n : ℕ) (e : TcEntry) (l : List TcEntry)
    → n ≤ length l
    → (take n (keys (pop_back e l).0) ≡ take n (keys (e ∷ l)))
      × (length (pop_back e l).0 ≡ length l)
pop_back-take n e l h =
    let ks = keys (pop_back e l).0 in
    let all : ks ++ ((pop_back e l).1.problem_id ∷ []) ≡ keys (e ∷ l) = keys-pop_back e l in
    let counted : length ks ≡ length l =
      omega (
        arith,
        ap length all,
        length-append ks ((pop_back e l).1.problem_id ∷ []),
        keys-length l,
      ) in
    (
      sym (take-append_one ks (pop_back e l).1.problem_id n (omega (arith, counted, h)))
          ∙ ap (take n) all,
      omega (arith, counted, keys-length (pop_back e l).0),
    )

pop_back-IsIndexed :
    (index : List Key) (e : TcEntry) (l : List TcEntry)
    → IsIndexed index (keys (e ∷ l))
    → IsIndexed (remove (pop_back e l).1.problem_id index) (keys (pop_back e l).0)
pop_back-IsIndexed index e l i =
    pop-IsIndexed (pop_back e l).1.problem_id index (keys (pop_back e l).0)
      (subst (IsIndexed index) (sym (keys-pop_back e l)) i)

-- A round of the loop, of the list `l`.
abbrev round : ℕ → TestcaseCache → List String → List TcEntry → TestcaseCache
round fuel c dirs l =
    let (c', evicted) = evict_back c l in
    let rest = evict_from fuel c' (evicted ++ dirs) in
    (if ltb c.max_entries (length l) then rest else (c, dirs)).0

evict_from-IsEvicted :
    (fuel : ℕ) (c : TestcaseCache) (dirs : List String)
    → IsIndexed c.index (keys c.lru_list)
    → length c.lru_list ≤ c.max_entries + fuel
    → IsEvicted c (evict_from fuel c dirs).0
unfolding evict_from
evict_from-IsEvicted zero c dirs i h = evict_from-stops c i (omega (arith, h))
evict_from-IsEvicted (suc fuel) c dirs i h = elim (List-cases c.lru_list) [
  | inl at ↦
      subst (λ l. IsEvicted c (round fuel c dirs l)) (sym at)
        (let no : ltb c.max_entries 0 ≡ false = ground arith in
          rw (no, round) (evict_from-stops c i (omega (arith, ap length at))))
  | inr (e, l, at) ↦
      subst (λ l'. IsEvicted c (round fuel c dirs l')) (sym at)
        (elim (Bool-cases (ltb c.max_entries (suc (length l)))) [
          | inr enough ↦ rw (enough, round) (evict_from-stops c i (ground (arith, ap length at)))
          | inl full ↦
              let fits : c.max_entries ≤ length l = ground arith in
              let (first, counted) = pop_back-take c.max_entries e l fits in
              let rest =
                evict_from-IsEvicted fuel (evict_back c (e ∷ l)).0
                  ((evict_back c (e ∷ l)).1 ++ dirs)
                  (pop_back-IsIndexed c.index e l (subst (λ m. IsIndexed c.index (keys m)) at i))
                  (omega (arith, counted, ap length at, h)) in
              rw (full, round)
                record {
                  evicted_indexed = rest.evicted_indexed;
                  kept = rest.kept ∙ first ∙ ap (λ m. take c.max_entries (keys m)) (sym at);
                  same_max = rest.same_max;
                  same_slots = rest.same_slots;
                }
        ])
]

pub evict_if_needed-IsEvicted :
    (c : TestcaseCache) → IsIndexed c.index (keys c.lru_list) → IsEvicted c (evict_if_needed c).0
unfolding evict_if_needed
evict_if_needed-IsEvicted c i = evict_from-IsEvicted (length c.lru_list) c [] i (omega arith)
