-- ===== src/Judger/Cache/Keys.antt =====
-- testcase_cache.go: the keys of the cache's list and maps.
use my_oj.Prelude.{
  ℕ, zero, suc, ◌≤◌, ◌≡◌, refl, ap, true, false, ◌||◌, none, some, List, [], ◌∷◌, ◌++◌, length,
  take, ◌==◌, Bool-cases, inl, inr, arith,
}
use my_oj.Prelude.Sets.{Distinct, has, has-append, remove}
use my_oj.Models.Types.{Key}
use my_oj.Judger.Cache.{TcEntry, keys, entry_of, without, pop_back}

pub keys-without : (k : Key) (l : List TcEntry) → keys (without k l) ≡ remove k (keys l)
unfolding without remove
keys-without k [] = refl
keys-without k (e ∷ l) = ground (arith, keys-without k l)

pub keys-length : (l : List TcEntry) → length (keys l) ≡ length l
keys-length [] = refl
keys-length (e ∷ l) = ap suc (keys-length l)

pub keys-append : (l m : List TcEntry) → keys (l ++ m) ≡ keys l ++ keys m
keys-append [] m = refl
keys-append (e ∷ l) m = ap (λ ks. e.problem_id ∷ ks) (keys-append l m)

-- An entry found under a key has that key, and the key stands in the list.
pub entry_of-key :
    (k : Key) (l : List TcEntry) (e : TcEntry)
    → entry_of k l ≡ some e
    → (e.problem_id ≡ k) × (has k (keys l) ≡ true)
unfolding entry_of has
entry_of-key k [] e h = cc
entry_of-key k (f ∷ l) e h = elim (Bool-cases (f.problem_id == k)) [
  | inl same ↦ ground arith
  | inr other ↦ ground (arith, entry_of-key k l e)
]

pub entry_of-none : (k : Key) (l : List TcEntry) → entry_of k l ≡ none → has k (keys l) ≡ false
unfolding entry_of has
entry_of-none k [] h = refl
entry_of-none k (f ∷ l) h = ground (arith, entry_of-none k l)

pub keys-pop_back :
    (e : TcEntry) (l : List TcEntry)
    → keys (pop_back e l).0 ++ ((pop_back e l).1.problem_id ∷ []) ≡ keys (e ∷ l)
unfolding pop_back
keys-pop_back e [] = refl
keys-pop_back e (f ∷ l) = ap (λ ks. e.problem_id ∷ ks) (keys-pop_back f l)

-- The last of distinct keys, and the others.
pub Distinct-append_one :
    (ks : List Key) (k : Key) → Distinct (ks ++ (k ∷ [])) → Distinct ks × (has k ks ≡ false)
unfolding has
Distinct-append_one [] k d = (tt, refl)
Distinct-append_one (j ∷ ks) k (fresh, d) =
    let (d', out) = Distinct-append_one ks k d in
    let off = has-append j ks (k ∷ []) in ((ground (arith, off), d'), ground (arith, off))

pub append_one-Distinct :
    (ks : List Key) (k : Key) → Distinct ks → has k ks ≡ false → Distinct (ks ++ (k ∷ []))
unfolding has
append_one-Distinct [] k d h = (refl, tt)
append_one-Distinct (j ∷ ks) k (fresh, d) h =
    (ground (arith, has-append j ks (k ∷ [])), append_one-Distinct ks k d (ground arith))

pub has-append_one :
    (j : Key) (ks : List Key) (k : Key) → has j (ks ++ (k ∷ [])) ≡ ((k == j) || has j ks)
unfolding has
has-append_one j ks k = ground (arith, has-append j ks (k ∷ []))

pub take-append_one :
    (ks : List Key) (k : Key) (n : ℕ) → n ≤ length ks → take n (ks ++ (k ∷ [])) ≡ take n ks
take-append_one ks k zero h = refl
take-append_one [] k (suc n) h = absurd (omega (arith, h))
take-append_one (j ∷ ks) k (suc n) h = ap (λ js. j ∷ js) (take-append_one ks k n (omega (arith, h)))

pub take_all : (n : ℕ) (ks : List Key) → length ks ≤ n → take n ks ≡ ks
take_all zero [] h = refl
take_all (suc n) [] h = refl
take_all zero (j ∷ ks) h = absurd (omega (arith, h))
take_all (suc n) (j ∷ ks) h = ap (λ js. j ∷ js) (take_all n ks (omega (arith, h)))

-- A key taken off behind the first n + 1 is not seen among the first n.
pub take-remove-take :
    (n : ℕ) (k : Key) (ks : List Key) → take n (remove k (take (suc n) ks)) ≡ take n (remove k ks)
unfolding remove
take-remove-take zero k ks = refl
take-remove-take (suc n) k [] = refl
take-remove-take (suc n) k (j ∷ ks) = elim (Bool-cases (j == k)) [
  | inl e ↦ rw e (take-take n ks)
  | inr e ↦ rw e (ap (λ js. j ∷ js) (take-remove-take n k ks))
]
  where
    take-take : (m : ℕ) (js : List Key) → take (suc m) (take (suc m) js) ≡ take (suc m) js
    take-take m [] = refl
    take-take zero (i ∷ js) = refl
    take-take (suc m) (i ∷ js) = ap (λ is. i ∷ is) (take-take m js)
