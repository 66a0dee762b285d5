-- ===== src/Prelude/Assoc.antt =====
-- Maps as association lists: Go's maps and Redis hashes, whose writes replace in place.
use Prim.Native.Nat.{ℕ}
use mathlib.Core.Path.{◌≡◌, refl}
use mathlib.Core.Option.{Option, none, some}
use mathlib.Core.List.{List, [], ◌∷◌}
use native.Mathlib.Omega.{arith}
use my_oj.Prelude.Tests.{if◌then◌else◌, ◌==◌}

module _ {ℓ} {V : Type ℓ} where
  unfoldable pub get : ℕ → List (ℕ × V) → Option V
  get k [] = none
  get k ((j, v) ∷ m) = if j == k then some v else get k m

  unfoldable pub set : ℕ → V → List (ℕ × V) → List (ℕ × V)
  set k v [] = (k, v) ∷ []
  set k v ((j, w) ∷ m) = if j == k then (k, v) ∷ m else (j, w) ∷ set k v m

  pub get-set :
      (k j : ℕ) (v : V) (m : List (ℕ × V))
      → get j (set k v m) ≡ (if k == j then some v else get j m)
  unfolding get set
  get-set k j v [] = refl
  get-set k j v ((i, w) ∷ m) = ground (arith, get-set k j v m)

-- Go's `delete`, and the values.
module _ {ℓ} {V : Type ℓ} where
  unfoldable pub delete : ℕ → List (ℕ × V) → List (ℕ × V)
  delete k [] = []
  delete k ((j, v) ∷ m) = let rest = delete k m in if j == k then rest else (j, v) ∷ rest

  pub get-delete :
      (k j : ℕ) (m : List (ℕ × V)) → get j (delete k m) ≡ (if k == j then none else get j m)
  unfolding get delete
  get-delete k j [] = ground arith
  get-delete k j ((i, w) ∷ m) = ground (arith, get-delete k j m)

-- The hash of a contest's entries: the field is a user and a problem.
module _ {ℓ} {V : Type ℓ} where
  unfoldable pub get2 : ℕ → ℕ → List (ℕ × ℕ × V) → Option V
  get2 u p [] = none
  get2 u p ((a, b, v) ∷ m) = if a == u then (if b == p then some v else get2 u p m) else get2 u p m

  unfoldable pub set2 : ℕ → ℕ → V → List (ℕ × ℕ × V) → List (ℕ × ℕ × V)
  set2 u p v [] = (u, p, v) ∷ []
  set2 u p v ((a, b, w) ∷ m) =
      let rest = (a, b, w) ∷ set2 u p v m in
      if a == u then (if b == p then (u, p, v) ∷ m else rest) else rest

  pub get2-set2 :
      (u p a b : ℕ) (v : V) (m : List (ℕ × ℕ × V))
      → get2 a b (set2 u p v m)
        ≡ (if u == a then (if p == b then some v else get2 a b m) else get2 a b m)
  unfolding get2 set2
  get2-set2 u p a b v [] = ground arith
  get2-set2 u p a b v ((i, j, w) ∷ m) = ground (arith, get2-set2 u p a b v m)
