-- ===== src/Submissions/Batch/Latest.antt =====
-- submission.go: the last submission of each user to each problem.
use my_oj.Prelude.{
  ℕ, ◌≡◌, refl, ap, sym, ◌∙◌, Bool, true, not, List, [], ◌∷◌, ◌==◌, ltb, if◌then◌else◌, arith,
  Option-cases, Bool-cases, ==_iff, ◌≤◌, inl, inr,
}
use my_oj.Prelude.Assoc
use my_oj.Models.Types.{Key}
use my_oj.Models.Judging.{Submission}
use my_oj.Submissions.Batch.{
  note_latest, latest_ids, or_zero, is_latest, partition_by, split_latest_per_problem,
}

abbrev larger : ℕ → ℕ → ℕ
larger a b = if ltb a b then b else a

-- The largest key of a user's submissions to a problem, 0 if there is none.
unfoldable pub last_id : Key → Key → List Submission → Key
last_id u p [] = 0
last_id u p (s ∷ ss) =
    let rest = last_id u p ss in
    if s.user_id == u then (if s.problem_id == p then larger s.id rest else rest) else rest

-- The submissions of a list that pass a test, in their order.
unfoldable pub those : (Submission → Bool) → List Submission → List Submission
those test [] = []
those test (s ∷ ss) = let rest = those test ss in if test s then s ∷ rest else rest

abbrev pub is_last : List Submission → Submission → Bool
is_last subs s = last_id s.user_id s.problem_id subs == s.id

same_cell :
    (a b u p : Key) (m : List (Key × Key × Key))
    → (a == u) ≡ true
    → (b == p) ≡ true
    → Assoc.get2 u p m ≡ Assoc.get2 a b m
same_cell a b u p m h k =
    sym (
      ap (λ x. Assoc.get2 x b m) ((==_iff a u).0 h) ∙ ap (λ y. Assoc.get2 u y m) ((==_iff b p).0 k))

-- One note, read at the cell of a user and a problem.
abbrev noted_at : Key → Key → Key → Key → Key → Key → Key
noted_at a b id u p old = if a == u then (if b == p then larger old id else old) else old

set2-noted :
    (a b id u p : Key) (m : List (Key × Key × Key))
    → or_zero (Assoc.get2 a b m) ≤ id
    → or_zero (Assoc.get2 u p (Assoc.set2 a b id m))
      ≡ noted_at a b id u p (or_zero (Assoc.get2 u p m))
set2-noted a b id u p m h = rw (Assoc.get2-set2 a b u p id m) (elim (Bool-cases (a == u)) [
  | inl e ↦ elim (Bool-cases (b == p)) [
    | inl f ↦ rw (e, f, same_cell a b u p m e f) (pick (or_zero (Assoc.get2 a b m)) h)
    | inr f ↦ rw (e, f) refl
  ]
  | inr e ↦ rw e refl
])
  where
    pick : (old : Key) → old ≤ id → id ≡ larger old id
    pick old k = ground arith

kept-noted :
    (a b id u p : Key) (m : List (Key × Key × Key))
    → id ≤ or_zero (Assoc.get2 a b m)
    → or_zero (Assoc.get2 u p m) ≡ noted_at a b id u p (or_zero (Assoc.get2 u p m))
kept-noted a b id u p m h = elim (Bool-cases (a == u)) [
  | inl e ↦ elim (Bool-cases (b == p)) [
    | inl f ↦ rw (e, f, same_cell a b u p m e f) (pick (or_zero (Assoc.get2 a b m)) h)
    | inr f ↦ rw (e, f) refl
  ]
  | inr e ↦ rw e refl
]
  where
    pick : (old : Key) → id ≤ old → old ≡ larger old id
    pick old k = ground arith

note_latest-get :
    (a b id u p : Key) (m : List (Key × Key × Key))
    → or_zero (Assoc.get2 u p (note_latest a b id m))
      ≡ noted_at a b id u p (or_zero (Assoc.get2 u p m))
unfolding note_latest Assoc.get2
note_latest-get a b id u p m = elim (Option-cases (Assoc.get2 a b m)) [
  | inl e ↦ rw (e, note_latest) (set2-noted a b id u p m (rw e (omega arith)))
  | inr (cur, e) ↦ elim (Bool-cases (ltb cur id)) [
    | inl f ↦ rw (e, note_latest) (rw f (set2-noted a b id u p m (rw e (ground arith))))
    | inr f ↦ rw (e, note_latest) (rw f (kept-noted a b id u p m (rw e (ground arith))))
  ]
]

larger-noted :
    (a b id u p old rest : Key)
    → larger (noted_at a b id u p old) rest
      ≡ larger old (if a == u then (if b == p then larger id rest else rest) else rest)
larger-noted a b id u p old rest = elim (Bool-cases (a == u)) [
  | inl e ↦ elim (Bool-cases (b == p)) [
    | inl f ↦ rw (e, f) (assoc old id rest)
    | inr f ↦ rw (e, f) refl
  ]
  | inr e ↦ rw e refl
]
  where
    assoc : (x y z : ℕ) → larger (larger x y) z ≡ larger x (larger y z)
    assoc x y z = ground arith

latest_ids-get :
    (ss : List Submission) (u p : Key) (m : List (Key × Key × Key))
    → or_zero (Assoc.get2 u p (latest_ids ss m))
      ≡ larger (or_zero (Assoc.get2 u p m)) (last_id u p ss)
unfolding latest_ids last_id
latest_ids-get [] u p m = ground arith
latest_ids-get (s ∷ ss) u p m =
    latest_ids-get ss u p (note_latest s.user_id s.problem_id s.id m)
    ∙ ap (λ old. larger old (last_id u p ss)) (note_latest-get s.user_id s.problem_id s.id u p m)
    ∙ larger-noted s.user_id s.problem_id s.id u p (or_zero (Assoc.get2 u p m)) (last_id u p ss)

is_latest-is_last :
    (subs : List Submission) (s : Submission) → is_latest (latest_ids subs []) s ≡ is_last subs s
unfolding is_latest Assoc.get2
is_latest-is_last subs s =
    ap (λ id. id == s.id)
      (latest_ids-get subs s.user_id s.problem_id []
        ∙ from_zero (last_id s.user_id s.problem_id subs))
  where
    from_zero : (n : ℕ) → larger 0 n ≡ n
    from_zero n = ground arith

partition_by-those :
    (test test' : Submission → Bool) (ss : List Submission)
    → ((s : Submission) → test s ≡ test' s)
    → partition_by test ss ≡ (those test' ss, those (λ s. not (test' s)) ss)
unfolding partition_by those
partition_by-those test test' [] h = refl
partition_by-those test test' (s ∷ ss) h = elim (Bool-cases (test' s)) [
  | inl e ↦ rw (h s, e, partition_by-those test test' ss h) refl
  | inr e ↦ rw (h s, e, partition_by-those test test' ss h) refl
]

-- Of the submissions that are given, those with the largest key of their user and problem are judged
-- and all the others are voided, both in the order that they came in, and whatever that order is.
pub split_latest_per_problem_lem :
    (subs : List Submission)
    → split_latest_per_problem subs
      ≡ (those (is_last subs) subs, those (λ s. not (is_last subs s)) subs)
unfolding split_latest_per_problem
split_latest_per_problem_lem subs =
    partition_by-those (is_latest (latest_ids subs [])) (is_last subs) subs (is_latest-is_last subs)
