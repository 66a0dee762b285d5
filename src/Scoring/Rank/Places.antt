-- ===== src/Scoring/Rank/Places.antt =====
-- strategy.go: the numbering of rows by `assignRanks`, against counting the better ones.
use my_oj.Prelude.{
  ℕ, suc, ◌+◌, ◌≡◌, refl, ap, sym, ◌∙◌, Bool, true, false, Option, none, some, List, [], ◌∷◌,
  length, if◌then◌else◌, arith, Bool-cases, inl, inr, not, ◌&&◌,
}
use mathlib.Core.List.{Mem, mem-cons_self, mem-cons_of_mem}
use my_oj.Prelude.Order.{IsStrictWeak, IsOrdered}
use my_oj.Scoring.Rank.{RankRow, assign_from, assign_ranks}

abbrev pub All {ℓ κ} : {A : Type ℓ} → (A → Type κ) → List A → Type κ
All P [] = Unit
All P (x ∷ xs) = P x × All P xs

All-map {ℓ κ μ} :
    {A : Type ℓ} {P : A → Type κ} {Q : A → Type μ}
    → ((a : A) → P a → Q a)
    → (xs : List A) → All P xs
    → All Q xs
All-map f [] h = tt
All-map f (x ∷ xs) h = (f x h.0, All-map f xs h.1)

abbrev pub one_if : Bool → ℕ
one_if b = if b then 1 else 0

-- How many of the rows beat one.
unfoldable pub count_beating : (RankRow → RankRow → Bool) → List RankRow → RankRow → ℕ
count_beating beats [] r = 0
count_beating beats (q ∷ rows) r = one_if (beats q r) + count_beating beats rows r

-- What the numbering needs of the order: a strict weak order that does not read the rank, and
-- under which rows are tied when neither beats the other.
pub record IsPlacing (beats tied : RankRow → RankRow → Bool) : Type 0 where
  pub weak : IsStrictWeak beats
  pub ignores_rank : (a b : RankRow) (k : ℕ) → beats a (record b { rank = k }) ≡ beats a b
  pub ignores_rank_left : (a b : RankRow) (k : ℕ) → beats (record a { rank = k }) b ≡ beats a b
  pub tied_iff : (a b : RankRow) → tied a b ≡ (not (beats a b) && not (beats b a))

module _ {beats tied : RankRow → RankRow → Bool} (pl : IsPlacing beats tied) where
  count-rank :
      (rows : List RankRow) (r : RankRow) (k : ℕ)
      → count_beating beats rows (record r { rank = k }) ≡ count_beating beats rows r
  unfolding count_beating
  count-rank [] r k = refl
  count-rank (q ∷ rows) r k =
      let same = pl.ignores_rank q r k in ground (arith, count-rank rows r k)

  irreflexive : (r : RankRow) → beats r r ≡ false
  irreflexive r = elim (Bool-cases (beats r r)) [ inl h ↦ pl.weak.asym r r h | inr h ↦ h ]

  -- Nothing that stands behind beats.
  count-zero :
      (r : RankRow) (rows : List RankRow)
      → ((b : RankRow) → Mem b rows → beats b r ≡ false)
      → count_beating beats rows r ≡ 0
  unfolding count_beating
  count-zero r [] h = refl
  count-zero r (q ∷ rows) h =
      rw (h q mem-cons_self) (omega (arith, count-zero r rows (λ b m. h b (mem-cons_of_mem q m))))

  -- Everything that is not behind a row which beats `r` beats `r`.
  count-length :
      (p r : RankRow) (rows : List RankRow)
      → All (λ q. beats p q ≡ false) rows
      → beats p r ≡ true
      → count_beating beats rows r ≡ length rows
  unfolding count_beating
  count-length p r [] h b = refl
  count-length p r (q ∷ rows) h b = elim (Bool-cases (beats q r)) [
    | inl wins ↦ rw wins (omega (arith, count-length p r rows h.1 b))
    | inr loses ↦ absurd (ground (arith, pl.weak.weaken p q r h.0 loses))
  ]

  -- Tied rows are beaten by the same rows.
  beats-tied : (q p r : RankRow) → beats p r ≡ false → beats r p ≡ false → beats q r ≡ beats q p
  beats-tied q p r h k = ground (arith, pl.weak.weaken q r p, pl.weak.weaken q p r)

  count-tied :
      (p r : RankRow) (rows : List RankRow)
      → beats p r ≡ false
      → beats r p ≡ false
      → count_beating beats rows r ≡ count_beating beats rows p
  unfolding count_beating
  count-tied p r [] h k = refl
  count-tied p r (q ∷ rows) h k = rw (beats-tied q p r h k) (rw (count-tied p r rows h k))

  -- A row keeps its number of winners when it is given a rank, and is no winner of itself.
  abbrev Placed : List RankRow → RankRow → Type 0
  Placed all r = r.rank ≡ suc (count_beating beats all r)

  place_of_next :
      (all pre rest : List RankRow) (p r : RankRow)
      → ((x : RankRow)
          → count_beating beats all x
            ≡ count_beating beats pre x + count_beating beats (r ∷ rest) x)
      → All (λ q. beats p q ≡ false) pre
      → beats r p ≡ false
      → Placed all p
      → IsOrdered beats (r ∷ rest)
      → (if tied p r then p.rank else length pre + 1) ≡ suc (count_beating beats all r)
  unfolding count_beating
  place_of_next all pre rest p r total before behind placed ordered =
      elim (Bool-cases (beats p r)) [
        | inl wins ↦
            rw (pl.tied_iff p r, wins)
              (omega (
                arith,
                total r,
                count-length p r pre before wins,
                count-zero r rest ordered.0,
                ap one_if (irreflexive r),
              ))
        | inr level ↦
            rw (pl.tied_iff p r, level, behind)
              (placed ∙ ap suc (sym (count-tied p r all level behind)))
      ]

  assign_from-Placed :
      (all pre rest : List RankRow) (p : RankRow) (i : ℕ)
      → i ≡ length pre
      → ((x : RankRow)
          → count_beating beats all x ≡ count_beating beats pre x + count_beating beats rest x)
      → All (λ q. beats p q ≡ false) pre
      → All (λ q. (b : RankRow) → Mem b rest → beats b q ≡ false) pre
      → ((b : RankRow) → Mem b rest → beats b p ≡ false)
      → Placed all p
      → IsOrdered beats rest
      → All (Placed all) (assign_from tied i (some p) rest)
  unfolding assign_from count_beating
  assign_from-Placed all pre [] p i len total before behind behind_p placed ordered = tt
  assign_from-Placed all pre (r ∷ rest) p i len total before behind behind_p placed ordered =
      let place : rank' ≡ suc (count_beating beats all r) =
        rw len
          (place_of_next all pre rest p r total before (behind_p r mem-cons_self) placed ordered) in
      let here : Placed all ranked = place ∙ ap suc (sym (count-rank all r rank')) in
      (
        here,
        assign_from-Placed all (ranked ∷ pre) rest ranked (i + 1) (omega arith)
            (λ x. rw (pl.ignores_rank_left r x rank') (omega (arith, total x)))
            (
              pl.ignores_rank_left r ranked rank' ∙ pl.ignores_rank r r rank' ∙ irreflexive r,
              All-map (λ q h. pl.ignores_rank_left r q rank' ∙ h r mem-cons_self) pre behind,
            )
            (
              λ b m. pl.ignores_rank b r rank' ∙ ordered.0 b m,
              All-map (λ q h b m. h b (mem-cons_of_mem r m)) pre behind,
            )
            (λ b m. pl.ignores_rank b r rank' ∙ ordered.0 b m) here ordered.1,
      )
    where
      rank' : ℕ
      rank' = if tied p r then p.rank else i + 1

      ranked : RankRow
      ranked = record r { rank = rank' }

  -- Every row's place is one more than the number of rows that beat it.
  assign_ranks-Placed :
      (rows : List RankRow)
      → IsOrdered beats rows
      → All (λ r. r.rank ≡ suc (count_beating beats rows r)) (assign_ranks tied rows)
  unfolding assign_ranks assign_from count_beating
  assign_ranks-Placed [] h = tt
  assign_ranks-Placed (r ∷ rest) h =
      let none_beats = count-zero r rest h.0 in
      let here : Placed (r ∷ rest) first =
        omega (arith, count-rank (r ∷ rest) r 1, none_beats, ap one_if (irreflexive r)) in
      (
        here,
        assign_from-Placed (r ∷ rest) (first ∷ []) rest first 1 (omega arith)
            (λ x. rw (pl.ignores_rank_left r x 1) (omega arith))
            (pl.ignores_rank_left r first 1 ∙ pl.ignores_rank r r 1 ∙ irreflexive r, tt)
            (λ b m. pl.ignores_rank b r 1 ∙ h.0 b m, tt) (λ b m. pl.ignores_rank b r 1 ∙ h.0 b m)
            here h.1,
      )
    where
      first : RankRow
      first = record r { rank = 1 }

  -- The numbering changes nothing that the order reads.
  count-assign_from :
      (i : ℕ) (prev : Option RankRow) (rows : List RankRow) (x : RankRow)
      → count_beating beats (assign_from tied i prev rows) x ≡ count_beating beats rows x
  unfolding assign_from count_beating
  count-assign_from i none [] x = refl
  count-assign_from i (some p) [] x = refl
  count-assign_from i none (r ∷ rows) x =
      rw (pl.ignores_rank_left r x (i + 1))
        (omega (arith, count-assign_from (i + 1) (some (record r { rank = i + 1 })) rows x))
  count-assign_from i (some p) (r ∷ rows) x =
      let k : ℕ = if tied p r then p.rank else i + 1 in
      rw (pl.ignores_rank_left r x k)
        (omega (arith, count-assign_from (i + 1) (some (record r { rank = k })) rows x))

  count-assign_ranks :
      (rows : List RankRow) (x : RankRow)
      → count_beating beats (assign_ranks tied rows) x ≡ count_beating beats rows x
  unfolding assign_ranks
  count-assign_ranks rows x = count-assign_from 0 none rows x

  -- Competition ranking: in the numbered rows every place is one more than the number of rows that
  -- beat the row.
  pub assign_ranks-places :
      (rows : List RankRow)
      → IsOrdered beats rows
      → let board = assign_ranks tied rows in
        All (λ r. r.rank ≡ suc (count_beating beats board r)) board
  assign_ranks-places rows h =
      All-map (λ r e. e ∙ ap suc (sym (count-assign_ranks rows r))) (assign_ranks tied rows)
        (assign_ranks-Placed rows h)
