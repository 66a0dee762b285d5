-- ===== src/Scoring/Rank/Unique.antt =====
-- strategy_icpc.go: the ICPC ranking under different runtimes, which visit maps and sort
-- differently.
use my_oj.Prelude.{
  ℕ, ◌+◌, ◌≤◌, ◌≡◌, ◌≢◌, ap, sym, ◌∙◌, true, false, List, [], ◌∷◌, ◌==◌, arith, Bool-cases, inl,
  inr,
}
use mathlib.Core.List.{Mem, Perm, not-mem-nil, eq-or-mem_of_mem-cons}
use mathlib.Core.List.Perm
use mathlib.Core.Logic.Or
use my_oj.Prelude.Int.{ℤ, pos_part, neg_part, ◌≤ℤ◌}
use my_oj.Prelude.Order.{IsStrictWeak, IsOrdered-unique}
use my_oj.Scoring.Entry.{ScoreEntry}
use my_oj.Scoring.Rank.{
  RankRow, Runtime, put, tied_icpc, new_row, add_entry, add_entries, aggregate_users, accum_icpc,
  less_icpc, assign_ranks, rank_icpc,
}

RankRow-set : IsSet RankRow
RankRow-set = hlevel

-- Two integers are equal, in the form that the tactics for numbers read.
abbrev Same : ℤ → ℤ → Type 0
Same x y = pos_part x + neg_part y ≡ pos_part y + neg_part x

-- `a` does not come before `b`, key by key.
record NotBefore (a b : RankRow) : Type 0 where
  score : a.total_score ≤ℤ b.total_score
  penalty : Same a.total_score b.total_score → b.total_penalty ≤ℤ a.total_penalty
  time :
      Same a.total_score b.total_score
      → Same a.total_penalty b.total_penalty
      → b.last_ac_time ≤ a.last_ac_time
  user :
      Same a.total_score b.total_score
      → Same a.total_penalty b.total_penalty
      → a.last_ac_time ≡ b.last_ac_time
      → b.user_id ≤ a.user_id

to_NotBefore : (a b : RankRow) → less_icpc a b ≡ false → NotBefore a b
unfolding less_icpc
to_NotBefore a b h = ground arith

of_NotBefore : (a b : RankRow) → NotBefore a b → less_icpc a b ≡ false
unfolding less_icpc
of_NotBefore a b h = ground arith

NotBefore-trans : (a b c : RankRow) → NotBefore a b → NotBefore b c → NotBefore a c
NotBefore-trans a b c h k = omega arith

less_icpc-asym : (a b : RankRow) → less_icpc a b ≡ true → less_icpc b a ≡ false
unfolding less_icpc
less_icpc-asym a b h = ground arith

pub less_icpc-IsStrictWeak : IsStrictWeak less_icpc
less_icpc-IsStrictWeak = record {
  asym = λ a b h. less_icpc-asym a b h;
  weaken = λ a b c h k.
      of_NotBefore a c (NotBefore-trans a b c (to_NotBefore a b h) (to_NotBefore b c k));
}

-- The last tiebreaker leaves only rows of one user unordered.
less_icpc-same_user :
    (a b : RankRow) → less_icpc a b ≡ false → less_icpc b a ≡ false → a.user_id ≡ b.user_id
unfolding less_icpc
less_icpc-same_user a b h k = ground arith

-- No row is one of this user.
abbrev pub Absent : ℕ → List RankRow → Type 0
Absent u [] = Unit
Absent u (r ∷ rows) = (r.user_id ≢ u) × Absent u rows

abbrev pub OnePerUser : List RankRow → Type 0
OnePerUser [] = Unit
OnePerUser (r ∷ rows) = Absent r.user_id rows × OnePerUser rows

module _ (accum : RankRow → ScoreEntry → RankRow)
    (keeps_user : (r : RankRow) (e : ScoreEntry) → (accum r e).user_id ≡ r.user_id) where
  Absent-add_entry :
      (u : ℕ) (e : ScoreEntry) (rows : List RankRow)
      → e.user_id ≢ u
      → Absent u rows
      → Absent u (add_entry accum e rows)
  unfolding add_entry new_row
  Absent-add_entry u e [] ne h =
      (rw (keeps_user (record (new_row e.user_id) { entries = put e.problem_id e [] }) e) ne, tt)
  Absent-add_entry u e (r ∷ rows) ne h = elim (Bool-cases (r.user_id == e.user_id)) [
    | inl old ↦ rw old (rw (keeps_user (record r { entries = put e.problem_id e r.entries }) e) h)
    | inr new ↦ rw new (h.0, Absent-add_entry u e rows ne h.1)
  ]

  OnePerUser-add_entry :
      (e : ScoreEntry) (rows : List RankRow) → OnePerUser rows → OnePerUser (add_entry accum e rows)
  unfolding add_entry
  OnePerUser-add_entry e [] h = (tt, tt)
  OnePerUser-add_entry e (r ∷ rows) h = elim (Bool-cases (r.user_id == e.user_id)) [
    | inl old ↦ rw old (rw (keeps_user (record r { entries = put e.problem_id e r.entries }) e) h)
    | inr new ↦
        rw new (
          Absent-add_entry r.user_id e rows (λ p. ground arith) h.0,
          OnePerUser-add_entry e rows h.1,
        )
  ]

  pub OnePerUser-add_entries :
      (es : List ScoreEntry) (rows : List RankRow)
      → OnePerUser rows
      → OnePerUser (add_entries accum es rows)
  unfolding add_entries
  OnePerUser-add_entries [] rows h = h
  OnePerUser-add_entries (e ∷ es) rows h =
      OnePerUser-add_entries es (add_entry accum e rows) (OnePerUser-add_entry e rows h)

Absent-mem :
    (u : ℕ) (b : RankRow) (rows : List RankRow) → Absent u rows → Mem b rows → b.user_id ≢ u
Absent-mem u b [] h m = absurd (not-mem-nil m)
Absent-mem u b (r ∷ rows) h m =
    Or.elim (hlevel) (eq-or-mem_of_mem-cons m) (λ e. rw e h.0) (Absent-mem u b rows h.1)

row_of_user :
    (rows : List RankRow) (a b : RankRow)
    → OnePerUser rows
    → Mem a rows
    → Mem b rows
    → a.user_id ≡ b.user_id
    → a ≡ b
row_of_user [] a b h ma mb p = absurd (not-mem-nil ma)
row_of_user (r ∷ rows) a b h ma mb p =
    Or.elim (RankRow-set a b) (eq-or-mem_of_mem-cons ma)
      (λ ea.
        Or.elim (RankRow-set a b) (eq-or-mem_of_mem-cons mb) (λ eb. ea ∙ sym eb)
          (λ later.
            absurd (Absent-mem r.user_id b rows h.0 later (sym p ∙ ap (λ x. x.user_id) ea))))
      (λ later_a.
        Or.elim (RankRow-set a b) (eq-or-mem_of_mem-cons mb)
          (λ eb. absurd (Absent-mem r.user_id a rows h.0 later_a (p ∙ ap (λ x. x.user_id) eb)))
          (λ later_b. row_of_user rows a b h.1 later_a later_b p))

accum_icpc-user_id : (r : RankRow) (e : ScoreEntry) → (accum_icpc r e).user_id ≡ r.user_id
unfolding accum_icpc
accum_icpc-user_id r e = ground arith

-- The ICPC ranking of the same entries is the same list of rows, ranks included, whatever order
-- the runtime visits its maps in and however its sort treats equal elements.
pub rank_icpc_unique :
    (rt rt' : Runtime) (entries : List ScoreEntry) → rank_icpc rt entries ≡ rank_icpc rt' entries
unfolding rank_icpc aggregate_users
rank_icpc_unique rt rt' entries = ap (assign_ranks tied_icpc) same_order
  where
    rows : List RankRow
    rows = add_entries accum_icpc entries []

    sorted : Runtime → List RankRow
    sorted r = r.sorter.sort_slice less_icpc (r.map_order rows)

    sorted-perm : (r : Runtime) → Perm (sorted r) rows
    sorted-perm r =
        Perm.trans (r.sorter.sort_slice-perm less_icpc (r.map_order rows)) (r.map_order-perm rows)

    same_order : sorted rt ≡ sorted rt'
    same_order =
        IsOrdered-unique less_icpc RankRow-set (sorted rt) (sorted rt')
          (λ a b ma mb h k.
            row_of_user rows a b
              (OnePerUser-add_entries accum_icpc accum_icpc-user_id entries [] tt)
              (Perm.subset (sorted-perm rt) a ma) (Perm.subset (sorted-perm rt) b mb)
              (less_icpc-same_user a b h k))
          (rt.sorter.sort_slice-IsOrdered less_icpc (rt.map_order rows) less_icpc-IsStrictWeak)
          (rt'.sorter.sort_slice-IsOrdered less_icpc (rt'.map_order rows) less_icpc-IsStrictWeak)
          (Perm.trans (sorted-perm rt) (Perm.symm (sorted-perm rt')))
