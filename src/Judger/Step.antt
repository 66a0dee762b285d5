-- ===== src/Judger/Step.antt =====
-- internal/judger: what the stages of judging share. A stage returns, fails with an error or panics,
-- and leaves a trace of what it did; `defer_event` is Go's `defer`: it runs however the stage ends.
use Prim.Native.String.{String, [] as empty, ◌∷◌ as prepend}
use Prim.Native.Char.{code}
use my_oj.Prelude.{ℕ, List, [], ◌∷◌, ◌++◌, length, take, leb, if◌then◌else◌}
use my_oj.Models.Types.{Key}
use my_oj.Models.Judging.{Bytes}
use my_oj.Mq.Messages.{ResultMessage}

pub data Event : Type 0 where
  made_workdir removed_workdir prepared released : Event
  fetched_testcases : Key → Event
  compiled : Event
  ran_test_case : ℕ → Event
  sent : ResultMessage → Event
  refused : ResultMessage → Event

pub data Outcome {ℓ} (A : Type ℓ) : Type ℓ where
  returned : A → Outcome A
  failed : Bytes → Outcome A
  panicked : Bytes → Outcome A

abbrev pub Step {ℓ} : Type ℓ → Type ℓ
Step A = List Event × Outcome A

module _ {ℓ} {A : Type ℓ} where
  -- A call, with the event that it leaves when it returns.
  unfoldable pub perform : Event → Outcome A → Step A
  perform e (returned a) = (e ∷ [], returned a)
  perform e (failed x) = ([], failed x)
  perform e (panicked x) = ([], panicked x)

  abbrev pub after : List Event → Step A → Step A
  after events (more, out) = (events ++ more, out)

  unfoldable pub defer_event : Event → Step A → Step A
  defer_event e (events, out) = (events ++ (e ∷ []), out)

infixl 20 ◌>>=◌
unfoldable pub ◌>>=◌ {ℓ ℓ'} : {A : Type ℓ} {B : Type ℓ'} → Step A → (A → Step B) → Step B
(events, returned a) >>= f = after events (f a)
(events, failed e) >>= f = (events, failed e)
(events, panicked e) >>= f = (events, panicked e)

-- The bytes of an ASCII text.
abbrev pub codes : String → Bytes
codes empty = []
codes (prepend c s) = code c ∷ codes s

-- `fmt.Errorf(prefix + "%w", e)`, and a call whose error is passed on like that.
abbrev pub wrapped {ℓ} : {A : Type ℓ} → String → Outcome A → Outcome A
wrapped prefix (returned a) = returned a
wrapped prefix (failed e) = failed (codes prefix ++ e)
wrapped prefix (panicked e) = panicked e

unfoldable pub truncate : Bytes → ℕ → Bytes
truncate s max_bytes =
    if leb (length s) max_bytes then s else take max_bytes s ++ codes "...(truncated)"
