-- ===== src/Judger/Nsjail/Limits.antt =====
-- args.go: the limits on the command line.
use Prim.Native.String.{String}
use my_oj.Prelude.{
  ℕ, zero, suc, ◌+◌, ◌*◌, ◌≤◌, ◌<◌, ◌≡◌, refl, ◌⊎◌, inl, inr, List, [], ◌∷◌, ◌++◌, arith,
}
use my_oj.Judger.Compiler.{ResourceLimits}
use my_oj.Judger.Nsjail.{
  Config, SessionConfig, Arg, word, number, option, when_set, ceil_div, limit_args, build_base_args,
}

-- The option stands on the command line with the value behind it.
abbrev pub IsGiven : String → Arg → List Arg → Type 0
IsGiven flag value [] = ⊥
IsGiven flag value (a ∷ []) = ⊥
IsGiven flag value (a ∷ b ∷ args) = ((a ≡ word flag) × (b ≡ value)) ⊎ IsGiven flag value (b ∷ args)

IsGiven-cons :
    (flag : String) (value a : Arg) (args : List Arg)
    → IsGiven flag value args
    → IsGiven flag value (a ∷ args)
IsGiven-cons flag value a [] h = h
IsGiven-cons flag value a (b ∷ args) h = inr h

IsGiven-behind :
    (flag : String) (value : Arg) (front args : List Arg)
    → IsGiven flag value args
    → IsGiven flag value (front ++ args)
IsGiven-behind flag value [] args h = h
IsGiven-behind flag value (a ∷ front) args h =
    IsGiven-cons flag value a (front ++ args) (IsGiven-behind flag value front args h)

IsGiven-front :
    (flag : String) (value : Arg) (args back : List Arg)
    → IsGiven flag value args
    → IsGiven flag value (args ++ back)
IsGiven-front flag value [] back h = absurd h
IsGiven-front flag value (a ∷ []) back h = absurd h
IsGiven-front flag value (a ∷ b ∷ args) back (inl here) = inl here
IsGiven-front flag value (a ∷ b ∷ args) back (inr later) =
    inr (IsGiven-front flag value (b ∷ args) back later)

when_set-IsGiven :
    (flag : String) (value : Arg) (n : ℕ)
    → 0 < n
    → IsGiven flag value (when_set n (option flag value))
when_set-IsGiven flag value zero h = absurd (omega (arith, h))
when_set-IsGiven flag value (suc n) h = inl (refl, refl)

-- An option among the limits stands on the whole command line.
limit_args-IsGiven :
    (flag : String) (value : Arg) (defaults : List String) (cfg : Config) (scfg : SessionConfig)
    (l : ResourceLimits)
    → IsGiven flag value (limit_args cfg scfg l)
    → IsGiven flag value (build_base_args defaults cfg scfg l)
unfolding build_base_args
limit_args-IsGiven flag value defaults cfg scfg l h =
    IsGiven-behind flag value
      (word "--mode"
        ∷ word "o"
        ∷ word "--log_fd"
        ∷ word "3"
        ∷ word "--quiet"
        ∷ word "--disable_proc"
        ∷ [])
      _ (IsGiven-front flag value (limit_args cfg scfg l) _ h)

-- A limit in milliseconds as whole seconds, rounded up.
abbrev pub RoundsUp : ℕ → ℕ → Type 0
RoundsUp ms secs = (ms ≤ secs * 1000) × (secs * 1000 < ms + 1000)

-- A wall-clock limit that is set is on the command line in whole seconds, rounded up, whatever the
-- configuration, the session and the other limits are.
pub build_base_args_wall_limit :
    (defaults : List String) (cfg : Config) (scfg : SessionConfig) (l : ResourceLimits)
    → 0 < l.wall_time_limit_ms
    → (secs : ℕ) × RoundsUp l.wall_time_limit_ms secs
      × IsGiven "--time_limit" (number secs) (build_base_args defaults cfg scfg l)
unfolding limit_args ceil_div
build_base_args_wall_limit defaults cfg scfg l h =
    let value = number (ceil_div l.wall_time_limit_ms 1000) in
    (
      ceil_div l.wall_time_limit_ms 1000,
      (omega arith, omega arith),
      limit_args-IsGiven "--time_limit" value defaults cfg scfg l (
          IsGiven-front "--time_limit" value
            (when_set l.wall_time_limit_ms (option "--time_limit" value)) _
            (when_set-IsGiven "--time_limit" value l.wall_time_limit_ms h)),
    )

-- A CPU limit that is set is on the command line in whole seconds, rounded up, whatever the
-- configuration, the session and the other limits are.
pub build_base_args_cpu_limit :
    (defaults : List String) (cfg : Config) (scfg : SessionConfig) (l : ResourceLimits)
    → 0 < l.time_limit_ms
    → (secs : ℕ) × RoundsUp l.time_limit_ms secs
      × IsGiven "--rlimit_cpu" (number secs) (build_base_args defaults cfg scfg l)
unfolding limit_args ceil_div
build_base_args_cpu_limit defaults cfg scfg l h =
    let value = number (ceil_div l.time_limit_ms 1000) in
    let wall = number (ceil_div l.wall_time_limit_ms 1000) in
    (
      ceil_div l.time_limit_ms 1000,
      (omega arith, omega arith),
      limit_args-IsGiven "--rlimit_cpu" value defaults cfg scfg l (
          IsGiven-behind "--rlimit_cpu" value
            (when_set l.wall_time_limit_ms (option "--time_limit" wall)) _
            (IsGiven-front "--rlimit_cpu" value
              (when_set l.time_limit_ms (option "--rlimit_cpu" value)) _
              (when_set-IsGiven "--rlimit_cpu" value l.time_limit_ms h))),
    )
