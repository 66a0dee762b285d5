-- ===== src/Prelude/Sets.antt =====
-- Sets of keys, as Go's maps with the value left out: lists in which each key stands once.
use my_oj.Prelude.Tests.{◌==◌, if◌then◌else◌, Bool-cases}
use my_oj.Prelude.Lists.{length}
use Prim.Native.Nat.{ℕ, suc}
use mathlib.Core.Path.{◌≡◌, refl}
use mathlib.Core.Logic.{inl, inr}
use mathlib.Core.Bool.{Bool, true, false, not, ◌&&◌, ◌||◌}
use mathlib.Core.List.{List, [], ◌∷◌, ◌++◌}
use native.Mathlib.Omega.{arith}

unfoldable pub has : ℕ → List ℕ → Bool
has k [] = false
has k (j ∷ js) = j == k || has k js

unfoldable pub remove : ℕ → List ℕ → List ℕ
remove k [] = []
remove k (j ∷ js) = let rest = remove k js in if j == k then js else j ∷ rest

abbrev pub insert : ℕ → List ℕ → List ℕ
insert k js = if has k js then js else k ∷ js

abbrev pub Distinct : List ℕ → Type 0
Distinct [] = Unit
Distinct (k ∷ ks) = (has k ks ≡ false) × Distinct ks

pub has-insert : (k j : ℕ) (ks : List ℕ) → has k (insert j ks) ≡ ((j == k) || has k ks)
unfolding has
has-insert k j [] = ground arith
has-insert k j (i ∷ ks) = ground arith

pub has-remove :
    (k j : ℕ) (ks : List ℕ) → Distinct ks → has k (remove j ks) ≡ (not (j == k) && has k ks)
unfolding has remove
has-remove k j [] d = ground arith
has-remove k j (i ∷ ks) (fresh, d) = ground (arith, has-remove k j ks d)

pub remove-Distinct : (j : ℕ) (ks : List ℕ) → Distinct ks → Distinct (remove j ks)
unfolding remove has
remove-Distinct j [] d = tt
remove-Distinct j (i ∷ ks) (fresh, d) = elim (Bool-cases (i == j)) [
  | inl e ↦ rw e d
  | inr e ↦ rw e (ground (arith, has-remove i j ks d), remove-Distinct j ks d)
]

pub remove_absent : (k : ℕ) (ks : List ℕ) → has k ks ≡ false → remove k ks ≡ ks
unfolding has remove
remove_absent k [] h = refl
remove_absent k (j ∷ ks) h = ground (arith, remove_absent k ks)

-- A key that is there is taken off once.
pub length-remove_present :
    (k : ℕ) (ks : List ℕ) → has k ks ≡ true → suc (length (remove k ks)) ≡ length ks
unfolding has remove
length-remove_present k [] h = cc
length-remove_present k (j ∷ ks) h = ground (arith, length-remove_present k ks)

pub has-append : (k : ℕ) (ks js : List ℕ) → has k (ks ++ js) ≡ (has k ks || has k js)
unfolding has
has-append k [] js = refl
has-append k (j ∷ ks) js = ground (arith, has-append k ks js)
