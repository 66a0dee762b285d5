-- ===== src/Mq/Stream/Drain.antt =====
-- stream.go: whether the drain of the pending entries comes to an end.
use my_oj.Prelude.{
  ℕ, zero, suc, ◌≡◌, refl, ap, ◌∙◌, false, some, List, [], ◌∷◌, ◌++◌, length, arith,
}
use my_oj.Mq.Stream.{
  Entry, Broker, Handler, Action, Drained, still_draining, handler_failed, then_more, dispatch,
  dispatch_all, message_of, pending_batch, drain_claimed, drain_found, drain_pending,
}

-- One refusal for each entry, and so again in each round.
abbrev pub refusals : List Entry → List Action
refusals [] = []
refusals (e ∷ es) = handler_failed e.id ∷ refusals es

abbrev pub repeated : ℕ → List Entry → List Action
repeated zero es = []
repeated (suc rounds) es = refusals es ++ repeated rounds es

module _ {S : Type 0} (b : Broker S) (handler : Handler S) where
  -- The handler refuses each entry, and changes nothing.
  abbrev pub AllRefused : S → List Entry → Type 0
  AllRefused s [] = Unit
  AllRefused s (e ∷ es) = (handler (message_of e) s ≡ (s, false)) × AllRefused s es

  dispatch_all-refused :
      (es : List Entry) (s : S) → AllRefused s es → dispatch_all b handler es s ≡ (s, refusals es)
  unfolding dispatch_all dispatch
  dispatch_all-refused [] s h = refl
  dispatch_all-refused (e ∷ es) s (r, h) = rw r (
      ap (λ (out : S × List Action). (out.0, handler_failed e.id ∷ out.1))
        (dispatch_all-refused es s h))

  drain_found-refused :
      (next : S → S × List Action × Drained) (s : S) (ids : List ℕ) (es : List Entry)
      (rest : List Action)
      → length ids ≡ pending_batch
      → b.claim ids s ≡ (s, some es)
      → AllRefused s es
      → next s ≡ (s, rest, still_draining)
      → drain_found b handler next (s, some ids) ≡ (s, refusals es ++ rest, still_draining)
  unfolding drain_found drain_claimed
  drain_found-refused next s [] es rest n c h k = absurd (omega (arith, n))
  drain_found-refused next s (id ∷ ids) es rest n c h k =
      rw (c, n)
        (ap (λ (out : S × List Action). then_more b handler out.1 (next out.0))
            (dispatch_all-refused es s h)
          ∙ ap (then_more b handler (refusals es)) k)

  -- When a full batch of pending entries is listed and claimed, and the handler refuses each of them
  -- and changes nothing, the drain has not ended after any number of rounds: in each round it has
  -- handled those entries in vain, and no other entry, and the state is as before.
  pub drain_pending_stuck :
      (rounds : ℕ) (s : S) (ids : List ℕ) (es : List Entry)
      → length ids ≡ pending_batch
      → b.pending pending_batch s ≡ (s, some ids)
      → b.claim ids s ≡ (s, some es)
      → AllRefused s es
      → drain_pending b handler rounds s ≡ (s, repeated rounds es, still_draining)
  unfolding drain_pending
  drain_pending_stuck zero s ids es n p c h = refl
  drain_pending_stuck (suc rounds) s ids es n p c h = rw p (
      drain_found-refused (drain_pending b handler rounds) s ids es (repeated rounds es) n c h
        (drain_pending_stuck rounds s ids es n p c h))
