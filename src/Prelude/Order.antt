-- ===== src/Prelude/Order.antt =====
-- Sorting by a Boolean `less`, as Go's sort package does it: which results are possible, one way
-- to compute one, and when the result is unique.
use mathlib.Core.List.{
  List, [], ◌∷◌, Mem, Perm, mem-cons_self, mem-cons_of_mem, eq-or-mem_of_mem-cons, not-mem-nil,
}
use mathlib.Core.List.Perm
use mathlib.Core.Logic.Or
use mathlib.Core.Bool.{Bool, true, false, Bool-set}
use mathlib.Core.Path.{◌≡◌, refl, sym, ap, ◌∙◌}
use mathlib.Core.Logic.{inl, inr}
use my_oj.Prelude.Tests.{if◌then◌else◌, Bool-cases}

module _ {ℓ} {A : Type ℓ} (less : A → A → Bool) where
  -- A strict weak order, as sort.Slice requires of its argument.
  pub record IsStrictWeak : Type ℓ where
    pub asym : (a b : A) → less a b ≡ true → less b a ≡ false
    pub weaken : (a b c : A) → less a b ≡ false → less b c ≡ false → less a c ≡ false

  -- No element is less than one that stands before it.
  abbrev pub IsOrdered : List A → Type ℓ
  IsOrdered [] = Unit
  IsOrdered (x ∷ xs) = ((b : A) → Mem b xs → less b x ≡ false) × IsOrdered xs

  -- Equal elements keep their order: a stable sort.
  unfoldable pub insert : A → List A → List A
  insert x [] = x ∷ []
  insert x (y ∷ ys) = if less y x then y ∷ insert x ys else x ∷ y ∷ ys

  unfoldable pub insertion_sort : List A → List A
  insertion_sort [] = []
  insertion_sort (x ∷ xs) = insert x (insertion_sort xs)

  insert-perm : (x : A) (ys : List A) → Perm (insert x ys) (x ∷ ys)
  unfolding insert
  insert-perm x [] = Perm.refl (x ∷ [])
  insert-perm x (y ∷ ys) = elim (Bool-cases (less y x)) [
    | inl behind ↦ rw behind (Perm.trans (Perm.cons y (insert-perm x ys)) (Perm.swap x y ys))
    | inr before ↦ rw before (Perm.refl (x ∷ y ∷ ys))
  ]

  pub insertion_sort-perm : (xs : List A) → Perm (insertion_sort xs) xs
  unfolding insertion_sort
  insertion_sort-perm [] = Perm.refl []
  insertion_sort-perm (x ∷ xs) =
      Perm.trans (insert-perm x (insertion_sort xs)) (Perm.cons x (insertion_sort-perm xs))

  -- What is in order already stays as it is.
  pub insertion_sort_of_IsOrdered : (xs : List A) → IsOrdered xs → insertion_sort xs ≡ xs
  unfolding insertion_sort insert
  insertion_sort_of_IsOrdered [] h = refl
  insertion_sort_of_IsOrdered (x ∷ []) h = refl
  insertion_sort_of_IsOrdered (x ∷ y ∷ ys) h =
      ap (insert x) (insertion_sort_of_IsOrdered (y ∷ ys) h.1) ∙ rw (h.0 y mem-cons_self)

  module _ (order : IsStrictWeak) where
    insert-IsOrdered : (x : A) (ys : List A) → IsOrdered ys → IsOrdered (insert x ys)
    unfolding insert
    insert-IsOrdered x [] h = (λ b m. absurd (not-mem-nil m), tt)
    insert-IsOrdered x (y ∷ ys) h = elim (Bool-cases (less y x)) [
      | inl behind ↦ rw behind (
        λ b m.
            Or.elim (Bool-set _ _) (eq-or-mem_of_mem-cons (Perm.subset (insert-perm x ys) b m))
              (λ e. rw e (order.asym y x behind)) (h.0 b),
        insert-IsOrdered x ys h.1,
      )
      | inr before ↦ rw before (
        λ b m.
            Or.elim (Bool-set _ _) (eq-or-mem_of_mem-cons m) (λ e. rw e before)
              (λ later. order.weaken b y x (h.0 b later) before),
        h,
      )
    ]

    pub insertion_sort-IsOrdered : (xs : List A) → IsOrdered (insertion_sort xs)
    unfolding insertion_sort
    insertion_sort-IsOrdered [] = tt
    insertion_sort-IsOrdered (x ∷ xs) =
        insert-IsOrdered x (insertion_sort xs) (insertion_sort-IsOrdered xs)

  -- Elements that stand in the same place of the order are equal.
  abbrev pub Separates : List A → Type ℓ
  Separates xs = (a b : A) → Mem a xs → Mem b xs → less a b ≡ false → less b a ≡ false → a ≡ b

  -- Two orderings of the same separated elements are the same list.
  pub IsOrdered-unique :
      (s : IsSet A) (xs ys : List A)
      → Separates xs
      → IsOrdered xs
      → IsOrdered ys
      → Perm xs ys
      → xs ≡ ys
  IsOrdered-unique s [] ys sep ox oy p = sym (Perm.eq-nil (Perm.symm p))
  IsOrdered-unique s (x ∷ xs) [] sep ox oy p = Perm.eq-nil p
  IsOrdered-unique s (x ∷ xs) (y ∷ ys) sep ox oy p =
      let q = Perm.symm p in
      let same : x ≡ y =
        Or.elim (s x y) (eq-or-mem_of_mem-cons (Perm.subset p x mem-cons_self)) (λ e. e)
          (λ x_later.
            Or.elim (s x y) (eq-or-mem_of_mem-cons (Perm.subset q y mem-cons_self)) (λ e. sym e)
              (λ y_later.
                sep x y mem-cons_self (Perm.subset q y mem-cons_self) (oy.0 x x_later)
                  (ox.0 y y_later))) in
      rw same (
        ap (◌∷◌ y) (
          IsOrdered-unique s xs ys
            (λ a b ma mb. sep a b (mem-cons_of_mem x ma) (mem-cons_of_mem x mb)) ox.1 oy.1
            (Perm.cons_inv (rw same at p))))

-- What is known of the sort of the standard library: it is a reordering in which nothing is less
-- than what stands before it, for a `less` that is a strict weak order. Equal elements may end in
-- any order.
pub record Sorter {ℓ} (A : Type ℓ) : Type ℓ where
  pub sort_slice : (A → A → Bool) → List A → List A
  pub sort_slice-perm : (less : A → A → Bool) (xs : List A) → Perm (sort_slice less xs) xs
  pub sort_slice-IsOrdered :
      (less : A → A → Bool) (xs : List A) → IsStrictWeak less → IsOrdered less (sort_slice less xs)

abbrev pub insertion_sorter {ℓ} : {A : Type ℓ} → Sorter A
insertion_sorter {A} = record {
  sort_slice = insertion_sort;
  sort_slice-perm = insertion_sort-perm;
  sort_slice-IsOrdered = λ less xs order. insertion_sort-IsOrdered less order xs;
}
