-- ===== src/Judger/Tokens/Equal.antt =====
-- runner_standard.go: the comparison of two outputs, and the hint on where they part.
use my_oj.Prelude.{
  ℕ, suc, ◌+◌, ◌≡◌, ◌↔◌, refl, ap, subst, true, false, Option, none, some, List, [], ◌∷◌, ◌++◌, ◌≢◌,
  length, ◌==◌, ==_iff, Bool-cases, inl, inr, if◌then◌else◌, arith,
}
use my_oj.Models.Judging.{Bytes}
use my_oj.Judger.Tokens.{
  bytes_eq, all_eq, tokens_equal, tokenize, Hint, first_difference, count_mismatch, first_diff,
  first_diff_hint,
}

bytes_eq-to : (a b : Bytes) → bytes_eq a b ≡ true → a ≡ b
unfolding bytes_eq
bytes_eq-to [] [] e = refl
bytes_eq-to [] (b ∷ bs) e = ground (arith, e)
bytes_eq-to (x ∷ xs) [] e = ground (arith, e)
bytes_eq-to (x ∷ xs) (b ∷ bs) e = ground (arith, bytes_eq-to xs bs)

bytes_eq_refl : (a : Bytes) → bytes_eq a a ≡ true
unfolding bytes_eq
bytes_eq_refl [] = refl
bytes_eq_refl (x ∷ xs) = ground (arith, bytes_eq_refl xs)

all_eq-to : (ta tb : List Bytes) → length ta ≡ length tb → all_eq ta tb ≡ true → ta ≡ tb
unfolding all_eq
all_eq-to [] [] l e = refl
all_eq-to [] (b ∷ tb) l e = absurd (omega (arith, l))
all_eq-to (a ∷ ta) [] l e = absurd (omega (arith, l))
all_eq-to (a ∷ ta) (b ∷ tb) l e = elim (Bool-cases (bytes_eq a b)) [
  | inl same ↦ rw (bytes_eq-to a b same, all_eq-to ta tb (omega arith) (ground arith)) refl
  | inr other ↦ absurd (ground arith)
]

all_eq_refl : (ta : List Bytes) → all_eq ta ta ≡ true
unfolding all_eq
all_eq_refl [] = refl
all_eq_refl (a ∷ ta) = ground (arith, bytes_eq_refl a, all_eq_refl ta)

tokens_eq-to :
    (ta tb : List Bytes) → (if length ta == length tb then all_eq ta tb else false) ≡ true → ta ≡ tb
tokens_eq-to ta tb e = elim (Bool-cases (length ta == length tb)) [
  | inl l ↦ all_eq-to ta tb ((==_iff (length ta) (length tb)).0 l) (ground arith)
  | inr l ↦ absurd (ground arith)
]

-- Two outputs are taken as equal exactly when they have the same words in the same order.
pub tokens_equal_iff : (a b : Bytes) → (tokens_equal a b ≡ true) ↔ (tokenize a ≡ tokenize b)
unfolding tokens_equal
tokens_equal_iff a b =
    (tokens_eq-to (tokenize a) (tokenize b), λ e. rw e (ground (arith, all_eq_refl (tokenize b))))

-- The words of both agree up to a pair of words that differ, which is number `k`, counted on from `i`.
abbrev pub PartsAt : ℕ → List Bytes → List Bytes → ℕ → Bytes → Bytes → Type 0
PartsAt i tg tw k g w =
    (before : List Bytes) × (tg' : List Bytes) × (tw' : List Bytes) × (tg ≡ before ++ (g ∷ tg'))
    × (tw ≡ before ++ (w ∷ tw'))
    × (bytes_eq g w ≡ false)
    × (k ≡ i + length before + 1)

-- What is said of words number `i` on: where they part, or nothing if those that both have agree.
abbrev FirstDiff : ℕ → List Bytes → List Bytes → Option Hint → Type 0
FirstDiff i tg tw none = length tg ≡ length tw → tg ≡ tw
FirstDiff i tg tw (some (count_mismatch m n)) = ⊥
FirstDiff i tg tw (some (first_difference k g w)) = PartsAt i tg tw k g w

FirstDiff-cons :
    (i : ℕ) (a : Bytes) (tg tw : List Bytes) (o : Option Hint)
    → FirstDiff (suc i) tg tw o
    → FirstDiff i (a ∷ tg) (a ∷ tw) o
FirstDiff-cons i a tg tw none h = λ l. ap (λ ws. a ∷ ws) (h (omega arith))
FirstDiff-cons i a tg tw (some (count_mismatch m n)) h = h
FirstDiff-cons i a tg tw (some (first_difference k g w)) (before, tg', tw', p, q, differ, at) =
    (a ∷ before, tg', tw', ap (λ ws. a ∷ ws) p, ap (λ ws. a ∷ ws) q, differ, omega (arith, at))

first_diff-FirstDiff : (i : ℕ) (tg tw : List Bytes) → FirstDiff i tg tw (first_diff i tg tw)
unfolding first_diff
first_diff-FirstDiff i [] [] = λ l. refl
first_diff-FirstDiff i [] (w ∷ tw) = λ l. absurd (omega (arith, l))
first_diff-FirstDiff i (g ∷ tg) [] = λ l. absurd (omega (arith, l))
first_diff-FirstDiff i (g ∷ tg) (w ∷ tw) = elim (Bool-cases (bytes_eq g w)) [
  | inl same ↦
      rw (same, first_diff)
        (subst (λ v. FirstDiff i (g ∷ tg) (v ∷ tw) (first_diff (suc i) tg tw))
          (bytes_eq-to g w same)
          (FirstDiff-cons i g tg tw (first_diff (suc i) tg tw)
            (first_diff-FirstDiff (suc i) tg tw)))
  | inr other ↦ rw (other, first_diff) ([], tg, tw, refl, refl, other, omega arith)
]

-- A hint holds of the words of the output and the expected ones.
abbrev pub HintHolds : List Bytes → List Bytes → Hint → Type 0
HintHolds tg tw (first_difference k g w) = PartsAt 0 tg tw k g w
HintHolds tg tw (count_mismatch m n) = (m ≡ length tg) × (n ≡ length tw) × (m ≢ n)

hint_of :
    (tg tw : List Bytes) (o : Option Hint)
    → tg ≢ tw
    → FirstDiff 0 tg tw o
    → HintHolds tg tw (elim o [ some hint ↦ hint | none ↦ count_mismatch (length tg) (length tw) ])
hint_of tg tw none differ h = (refl, refl, λ l. differ (h l))
hint_of tg tw (some (count_mismatch m n)) differ h = absurd h
hint_of tg tw (some (first_difference k g w)) differ h = h

differ : (a b : Bytes) → tokens_equal a b ≡ false → tokenize a ≢ tokenize b
differ a b e same = absurd (ground (arith, e, (tokens_equal_iff a b).1 same))

-- On two outputs that do not compare as equal, the hint names the first pair of words that differ,
-- counted from 1, or the numbers of words, which are not the same.
pub first_diff_hint_holds :
    (got want : Bytes)
    → tokens_equal got want ≡ false
    → HintHolds (tokenize got) (tokenize want) (first_diff_hint got want)
unfolding first_diff_hint
first_diff_hint_holds got want e =
    hint_of (tokenize got) (tokenize want) (first_diff 0 (tokenize got) (tokenize want))
      (differ got want e) (first_diff-FirstDiff 0 (tokenize got) (tokenize want))
