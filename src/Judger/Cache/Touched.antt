-- ===== src/Judger/Cache/Touched.antt =====
-- testcase_cache.go: the entry that a locked part of the cache touches.
use Prim.Native.String.{String}
use my_oj.Prelude.{
  ◌≤◌, ◌≡◌, refl, sym, ap, subst, ◌∙◌, true, false, none, some, ◌∷◌, length, take, Option-cases,
  inl, inr, arith,
}
use my_oj.Prelude.Sets.{has, insert, length-remove_present, remove, remove_absent}
use my_oj.Models.Types.{Key}
use my_oj.Models.Time.{Time}
use my_oj.Models.Judging.{Bytes}
use my_oj.Judger.Cache.{TcEntry, TestcaseCache, keys, indexed, to_front, promote_entry}
use my_oj.Judger.Cache.Keys.{keys-without, keys-length, entry_of-key, entry_of-none, take_all}
use my_oj.Judger.Cache.Valid.{IsIndexed, evict_if_needed-IsEvicted, front-IsIndexed, push-IsIndexed}

-- What a touch of an entry makes of the cache: the entry is in front, and the rest are the others, as
-- many as fit.
pub record IsTouched (k : Key) (c c' : TestcaseCache) : Type 0 where
  pub touched_indexed : IsIndexed c'.index (keys c'.lru_list)
  pub in_front : keys c'.lru_list ≡ take c.max_entries (k ∷ remove k (keys c.lru_list))
  pub touched_max : c'.max_entries ≡ c.max_entries
  pub touched_slots : c'.in_progress ≡ c.in_progress

-- What the index has for a problem, in a cache that keeps its bounds.
found-key :
    (k : Key) (c : TestcaseCache) (e : TcEntry)
    → indexed k c ≡ some e
    → (e.problem_id ≡ k) × (has k (keys c.lru_list) ≡ true)
unfolding indexed
found-key k c e h = ground (arith, entry_of-key k c.lru_list e)

missing-key :
    (k : Key) (c : TestcaseCache)
    → IsIndexed c.index (keys c.lru_list)
    → indexed k c ≡ none
    → has k (keys c.lru_list) ≡ false
unfolding indexed
missing-key k c i h = ground (arith, i.same k, entry_of-none k c.lru_list)

pub to_front-IsTouched :
    (k : Key) (c : TestcaseCache) (e e' : TcEntry)
    → indexed k c ≡ some e
    → e'.problem_id ≡ e.problem_id
    → IsIndexed c.index (keys c.lru_list)
    → length c.lru_list ≤ c.max_entries
    → IsTouched k c (to_front e' c)
to_front-IsTouched k c e e' h same i fits =
    let (named, there) = found-key k c e h in
    let front : keys (to_front e' c).lru_list ≡ k ∷ remove k (keys c.lru_list) =
      rw (same, named) (ap (λ ks. k ∷ ks) (keys-without k c.lru_list)) in
    record {
      touched_indexed =
          subst (IsIndexed c.index) (sym front)
            (front-IsIndexed k c.index (keys c.lru_list) there i);
      in_front =
          front
          ∙ sym (
              take_all c.max_entries (k ∷ remove k (keys c.lru_list)) (
                omega (
                  arith,
                  length-remove_present k (keys c.lru_list) there,
                  keys-length c.lru_list,
                  fits,
                )));
      touched_max = refl;
      touched_slots = refl;
    }

pub promote_entry-IsTouched :
    (now : Time) (k : Key) (dir : String) (etag : Bytes) (c : TestcaseCache)
    → IsIndexed c.index (keys c.lru_list)
    → length c.lru_list ≤ c.max_entries
    → IsTouched k c (promote_entry now k dir etag c).0
unfolding promote_entry
promote_entry-IsTouched now k dir etag c i fits = elim (Option-cases (indexed k c)) [
  | inr (e, found) ↦
      rw (found, promote_entry)
        (to_front-IsTouched k c e (record e { etag = etag; validated_at = now }) found refl i fits)
  | inl missing ↦
      let new = missing-key k c i missing in
      let e : TcEntry = record {
        problem_id = k;
        local_dir = dir;
        etag = etag;
        validated_at = now;
      } in
      let pushed : TestcaseCache = record c {
        lru_list = e ∷ c.lru_list;
        index = insert k c.index;
      } in
      let out =
        evict_if_needed-IsEvicted pushed (push-IsIndexed k c.index (keys c.lru_list) new i) in
      rw (missing, promote_entry)
        record {
          touched_indexed = out.evicted_indexed;
          in_front =
              out.kept
              ∙ ap (λ ks. take c.max_entries (k ∷ ks))
                  (sym (remove_absent k (keys c.lru_list) new));
          touched_max = out.same_max;
          touched_slots = out.same_slots;
        }
]
