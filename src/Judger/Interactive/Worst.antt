-- ===== src/Judger/Interactive/Worst.antt =====
-- orchestrator.go: the process that stands for a group.
use my_oj.Prelude.{◌≤◌, ◌≡◌, refl, ap, ◌∙◌, List, [], ◌∷◌, ltb, if◌then◌else◌, arith}
use my_oj.Judger.Verdict.{ExecStatus, exec_ok, ExecResult}
use my_oj.Judger.Interactive.{severity, worst_from}

-- Each process ended well.
abbrev pub AllOk : List ExecResult → Type 0
AllOk [] = Unit
AllOk (r ∷ rs) = (r.status ≡ exec_ok) × AllOk rs

severity_zero : (s : ExecStatus) → severity s ≤ 0 → s ≡ exec_ok
unfolding severity
severity_zero s h = ground (arith, h)

severity_ok : (s : ExecStatus) → s ≡ exec_ok → severity s ≡ 0
unfolding severity
severity_ok s h = rw h refl

-- Of two processes the loop keeps one that is as severe as both.
pick : ExecResult → ExecResult → ExecResult
pick worst r = if ltb (severity worst.status) (severity r.status) then r else worst

pick-severe :
    (worst r : ExecResult)
    → (severity worst.status ≤ severity (pick worst r).status)
      × (severity r.status ≤ severity (pick worst r).status)
unfolding pick
pick-severe worst r = (ground arith, ground arith)

pick_same : (worst r : ExecResult) → r.status ≡ exec_ok → pick worst r ≡ worst
unfolding pick
pick_same worst r ok =
    let none : severity r.status ≡ 0 = severity_ok r.status ok in rw none (ground arith)

-- When the process chosen ended well, all did.
pub worst_from-AllOk :
    (worst : ExecResult) (rs : List ExecResult)
    → (worst_from worst rs).status ≡ exec_ok
    → AllOk (worst ∷ rs)
unfolding worst_from severity pick
worst_from-AllOk worst [] h = (h, tt)
worst_from-AllOk worst (r ∷ rs) h =
    let (picked, rest) = worst_from-AllOk (pick worst r) rs h in
    let (first, second) = pick-severe worst r in
    let none : severity (pick worst r).status ≡ 0 = ap severity picked in
    (
      severity_zero worst.status (omega (arith, first, none)),
      (severity_zero r.status (omega (arith, second, none)), rest),
    )

-- All well in a group choose its first process.
pub worst_from_of_AllOk :
    (worst : ExecResult) (rs : List ExecResult) → AllOk (worst ∷ rs) → worst_from worst rs ≡ worst
unfolding worst_from severity pick
worst_from_of_AllOk worst [] all = refl
worst_from_of_AllOk worst (r ∷ rs) (ok, (ok', all)) =
    let same : pick worst r ≡ worst = pick_same worst r ok' in
    ap (λ w. worst_from w rs) same ∙ worst_from_of_AllOk worst rs (ok, all)
