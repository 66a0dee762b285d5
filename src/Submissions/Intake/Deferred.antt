-- ===== src/Submissions/Intake/Deferred.antt =====
-- submission.go: what a request stores and queues.
use my_oj.Prelude.{
  ◌≡◌, ◌≢◌, refl, sym, subst, ◌⊎◌, inl, inr, Bool, true, false, not, ◌&&◌, Option, none, some, [],
  ◌∷◌, length, ◌==◌, if◌then◌else◌, Bool-cases, Option-cases, arith,
}
use Prim.Native.String.{String}
use my_oj.Models.Types.{Key, status_pending}
use my_oj.Models.Judging.{Submission}
use my_oj.Models.Contest.{Contest, effective_status, is_blind_judged, is_ended}
use my_oj.Submissions.Batch.{ProblemMeta}
use my_oj.Submissions.Intake.{
  SubmitRequest, Services, Taken, SubmitReply, nothing, defer_known, defer_judging, new_task,
  enqueue_task, new_submission, store_and_judge, create, upload_and_create, with_problem, submit,
  lang_ext, database_error, storage_error,
}

-- The contest is in the database, is judged blind and has not ended.
abbrev pub IsWithheld : Services → Option Key → Type 0
IsWithheld sv none = ⊥
IsWithheld sv (some id) =
    (contest : Contest) × (sv.contests id ≡ some contest)
    × (is_blind_judged contest ≡ true)
    × (is_ended (effective_status contest sv.now) ≡ false)

-- A contest that the database answers with and that is judged blind has ended.
abbrev pub IsOpen : Services → Option Key → Type 0
IsOpen sv none = Unit
IsOpen sv (some id) =
    (contest : Contest)
    → sv.contests id ≡ some contest
    → is_blind_judged contest ≡ true
    → is_ended (effective_status contest sv.now) ≡ true

-- Why a request is not taken in: its problem cannot be loaded or has no test cases, or the store
-- refuses the source or the database the row.
abbrev pub IsUnserved : Services → Key → SubmitRequest → Type 0
IsUnserved sv user req =
    (sv.load_problem_meta req.problem_id ≡ none)
    ⊎ (((pm : ProblemMeta) × (sv.load_problem_meta req.problem_id ≡ some pm)
          × (length pm.test_cases ≡ 0))
        ⊎ ((sv.put_source (sv.source_key user req.problem_id (lang_ext req.language))
                req.source_code
              ≡ false)
            ⊎ (sv.next_id ≡ none)))

-- The task of a stored submission: withheld, or, when the contest is open, on the queue exactly if the
-- queue takes it.
abbrev pub IsQueuedFor : Services → SubmitRequest → Option Key → Submission → Taken → Type 0
IsQueuedFor sv req contest sub out =
    (IsWithheld sv contest × (out.queued ≡ []))
    ⊎ (IsOpen sv contest
        × ((pm : ProblemMeta) × (sv.load_problem_meta req.problem_id ≡ some pm)
            × (((sv.publish (new_task sv pm sub) ≡ true) × (out.queued ≡ new_task sv pm sub ∷ []))
                ⊎ ((sv.publish (new_task sv pm sub) ≡ false) × (out.queued ≡ [])))))

-- Nothing is taken in, for a reason; or one pending submission of the user to the problem, in the
-- contest, made now, with what becomes of its task.
abbrev pub IsTakenFor : Services → Key → SubmitRequest → Option Key → Taken → Type 0
IsTakenFor sv user req contest out =
    ((out ≡ nothing) × IsUnserved sv user req)
    ⊎ ((sub : Submission) × (out.stored ≡ sub ∷ [])
        × (sub.user_id ≡ user)
        × (sub.problem_id ≡ req.problem_id)
        × (sub.contest_id ≡ contest)
        × (sub.status ≡ status_pending)
        × (sub.created_at ≡ sv.now)
        × IsQueuedFor sv req contest sub out)

blind_running :
    (blind ended : Bool) → (blind && not ended) ≡ true → (blind ≡ true) × (ended ≡ false)
blind_running true false e = (refl, refl)
blind_running true true e = cc
blind_running false ended e = cc

defer_judging-IsWithheld :
    (sv : Services) (contest : Option Key) → defer_judging sv contest ≡ true → IsWithheld sv contest
unfolding defer_judging defer_known
defer_judging-IsWithheld sv none e = cc
defer_judging-IsWithheld sv (some id) e = elim (Option-cases (sv.contests id)) [
  | inl f ↦ absurd (unknown (subst (λ o. defer_known o sv.now ≡ true) f e))
  | inr (contest, f) ↦
      let (blind, running) =
        blind_running (is_blind_judged contest) (is_ended (effective_status contest sv.now))
          (subst (λ o. defer_known o sv.now ≡ true) f e) in
      (contest, f, blind, running)
]
  where
    unknown : false ≡ true → ⊥
    unknown q = cc

open_ended : (blind ended : Bool) → (blind && not ended) ≡ false → blind ≡ true → ended ≡ true
open_ended true true e b = refl
open_ended true false e b = cc
open_ended false ended e b = cc

defer_judging-IsOpen :
    (sv : Services) (contest : Option Key) → defer_judging sv contest ≡ false → IsOpen sv contest
unfolding defer_judging defer_known
defer_judging-IsOpen sv none e = tt
defer_judging-IsOpen sv (some id) e = λ contest f blind.
    open_ended (is_blind_judged contest) (is_ended (effective_status contest sv.now))
      (subst (λ o. defer_known o sv.now ≡ false) f e) blind

store_and_judge-IsTakenFor :
    (sv : Services) (user : Key) (req : SubmitRequest) (contest : Option Key) (pm : ProblemMeta)
    (key : String) (id : Key)
    → sv.load_problem_meta req.problem_id ≡ some pm
    → IsTakenFor sv user req contest
        (store_and_judge sv pm req contest (new_submission sv user req contest key id)).0
unfolding store_and_judge enqueue_task
store_and_judge-IsTakenFor sv user req contest pm key id loaded =
    let sub = new_submission sv user req contest key id in
    elim (Bool-cases (defer_judging sv contest)) [
      | inl e ↦
          rw (e, store_and_judge)
            (inr (
              sub,
              refl,
              refl,
              refl,
              refl,
              refl,
              refl,
              inl (defer_judging-IsWithheld sv contest e, refl),
            ))
      | inr e ↦
          let judged = defer_judging-IsOpen sv contest e in
          rw (e, store_and_judge)
            (elim (Bool-cases (sv.publish (new_task sv pm sub))) [
              | inl f ↦
                  rw (f, enqueue_task)
                    (inr (
                      sub,
                      refl,
                      refl,
                      refl,
                      refl,
                      refl,
                      refl,
                      inr (judged, (pm, loaded, inl (f, refl))),
                    ))
              | inr f ↦
                  rw (f, enqueue_task)
                    (inr (
                      sub,
                      refl,
                      refl,
                      refl,
                      refl,
                      refl,
                      refl,
                      inr (judged, (pm, loaded, inr (f, refl))),
                    ))
            ])
    ]

create-IsTakenFor :
    (sv : Services) (user : Key) (req : SubmitRequest) (contest : Option Key) (pm : ProblemMeta)
    (key : String)
    → sv.load_problem_meta req.problem_id ≡ some pm
    → IsTakenFor sv user req contest (create sv user req contest pm key).0
unfolding create
create-IsTakenFor sv user req contest pm key loaded = elim (Option-cases sv.next_id) [
  | inl e ↦
      subst (λ o. IsTakenFor sv user req contest (made o).0) (sym e) (inl (refl, inr (inr (inr e))))
  | inr (id, e) ↦
      subst (λ o. IsTakenFor sv user req contest (made o).0) (sym e)
        (store_and_judge-IsTakenFor sv user req contest pm key id loaded)
]
  where
    made : Option Key → Taken × SubmitReply
    made o = elim o [
      | none ↦ (nothing, database_error)
      | some id ↦ store_and_judge sv pm req contest (new_submission sv user req contest key id)
    ]

upload_and_create-IsTakenFor :
    (sv : Services) (user : Key) (req : SubmitRequest) (contest : Option Key) (pm : ProblemMeta)
    → sv.load_problem_meta req.problem_id ≡ some pm
    → IsTakenFor sv user req contest (upload_and_create sv user req contest pm).0
unfolding upload_and_create
upload_and_create-IsTakenFor sv user req contest pm loaded =
    elim (Bool-cases (sv.put_source key req.source_code)) [
      | inl e ↦
          subst (λ b. IsTakenFor sv user req contest (put b).0) (sym e)
            (create-IsTakenFor sv user req contest pm key loaded)
      | inr e ↦
          subst (λ b. IsTakenFor sv user req contest (put b).0) (sym e)
            (inl (refl, inr (inr (inl e))))
    ]
  where
    key : String
    key = sv.source_key user req.problem_id (lang_ext req.language)

    put : Bool → Taken × SubmitReply
    put b = if b then create sv user req contest pm key else (nothing, storage_error)

with_problem-IsTakenFor :
    (sv : Services) (user : Key) (req : SubmitRequest) (contest : Option Key)
    (o : Option ProblemMeta)
    → sv.load_problem_meta req.problem_id ≡ o
    → IsTakenFor sv user req contest (with_problem sv user req contest o).0
unfolding with_problem
with_problem-IsTakenFor sv user req contest none loaded = inl (refl, inl loaded)
with_problem-IsTakenFor sv user req contest (some pm) loaded =
    elim (Bool-cases (length pm.test_cases == 0)) [
      | inl e ↦ rw (e, with_problem) (inl (refl, inr (inl (pm, loaded, ground (arith, e)))))
      | inr e ↦ rw (e, with_problem) (upload_and_create-IsTakenFor sv user req contest pm loaded)
    ]

not_allowed : (o : Option Bool) → (o ≡ none) ⊎ (o ≡ some false) → o ≢ some true
not_allowed o (inl e) h = cc
not_allowed o (inr e) h = cc

-- From the page of a contest, on every path: the database does not say that the user may submit, and
-- nothing is taken in; or the user may submit, and nothing is taken in since the problem cannot be
-- loaded or has no test cases, or the store or the database refuses; or one pending submission of the
-- user to the problem is taken in, made now, in the contest. Its task is withheld if the contest can
-- be loaded, is judged blind and has not ended; if not, it is on the queue exactly if the queue takes
-- it.
pub submit_takes :
    (sv : Services) (user contest : Key) (req : SubmitRequest)
    → let out = (submit sv user contest req).0 in
      let allowed = sv.can_submit_to_contest contest req.problem_id user in
      ((allowed ≢ some true) × (out ≡ nothing))
      ⊎ ((allowed ≡ some true) × IsTakenFor sv user req (some contest) out)
unfolding submit
submit_takes sv user contest req =
    elim (Option-cases (sv.can_submit_to_contest contest req.problem_id user)) [
      | inl e ↦ rw (e, submit) (inl (not_allowed none (inl refl), refl))
      | inr (true, e) ↦
          rw (e, submit) (inr (refl, with_problem-IsTakenFor sv user req (some contest) _ refl))
      | inr (false, e) ↦ rw (e, submit) (inl (not_allowed (some false) (inr refl), refl))
    ]
