-- ===== src/Mq/Stream/Ends.antt =====
-- stream.go: the drain of the pending entries when the handler takes each of them.
use mathlib.Core.List.{Mem}
use my_oj.Prelude.{ℕ, ◌≡◌, true, some, List, [], ◌∷◌, map, take}
use my_oj.Mq.Stream.{Entry, Message, Broker, Handler, Action, Drained, drained, pending_batch}

-- What Redis documents of one consumer, whose pending entries are `pel`, on a stream that holds the
-- entries `stored`. `XPENDING` lists the oldest pending entries, a claim that is answered returns those
-- that it names if they are pending and still in the stream, and an acknowledgement that is
-- answered removes its entry.
pub record PendingLaws {S : Type 0} (b : Broker S) (pel stored : S → List ℕ) : Type 0 where
  pub lists :
      (ids : List ℕ) (s : S)
      → (b.pending pending_batch s).1 ≡ some ids
      → ids ≡ take pending_batch (pel s)
  pub listing : (s : S) → pel (b.pending pending_batch s).0 ≡ pel s
  pub claims :
      (ids : List ℕ) (es : List Entry) (s : S)
      → ((id : ℕ) → Mem id ids → Mem id (pel s) × Mem id (stored s))
      → (b.claim ids s).1 ≡ some es
      → map (λ e. e.id) es ≡ ids
  pub claiming : (ids : List ℕ) (s : S) → pel (b.claim ids s).0 ≡ pel s
  pub removes :
      (id : ℕ) (rest : List ℕ) (s : S)
      → pel s ≡ id ∷ rest
      → (b.ack id s).1 ≡ true
      → pel (b.ack id s).0 ≡ rest

-- A run without trouble: no command fails, the stream is not cut down to entries that are still
-- pending, and the handler takes each entry and leaves the consumer's entries alone.
pub record IsUntroubled {S : Type 0} (b : Broker S) (handler : Handler S) (pel stored : S → List ℕ)
    : Type 0 where
  pub listed : (s : S) → (ids : List ℕ) × ((b.pending pending_batch s).1 ≡ some ids)
  pub claimed : (ids : List ℕ) (s : S) → (es : List Entry) × ((b.claim ids s).1 ≡ some es)
  pub acknowledged : (id : ℕ) (s : S) → (b.ack id s).1 ≡ true
  pub kept : (id : ℕ) (s : S) → Mem id (pel s) → Mem id (stored s)
  pub takes : (m : Message) (s : S) → (handler m s).1 ≡ true
  pub handling : (m : Message) (s : S) → pel (handler m s).0 ≡ pel s

pub some_eq {ℓ} : {A : Type ℓ} (xs ys : List A) → some xs ≡ some ys → xs ≡ ys
some_eq xs ys e = cc

module _ {S : Type 0} (b : Broker S) (handler : Handler S) (pel stored : S → List ℕ)
    (laws : PendingLaws b pel stored) (calm : IsUntroubled b handler pel stored) where
  -- The drain has ended, and nothing is pending.
  abbrev pub IsDrained : S × List Action × Drained → Type 0
  IsDrained out = (out.2 ≡ drained) × (pel out.0 ≡ [])
