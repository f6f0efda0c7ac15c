-- ===== src/Effects.antt =====
-- What a service does to the outside: calls of Cassandra, Redis, Kafka and other services, readings
-- of the clock and new identifiers, in the order in which the code makes them.
--
-- The services themselves are not in the repository and stay parameters: `Env` says whether a call
-- succeeds, which may depend on every call before it, and what the n-th reading of the clock and
-- the n-th identifier are. A `World` records the calls, the newest first, each with its outcome.
-- A query that only reads is a function of the calls so far, a field of the component's own record.
pub mod Facts
use nexus_chat.Base.{
  ℕ, suc, ◌+◌, String, Bool, true, false, List, ◌∷◌, Option, none, some, if◌then◌else◌,
}

pub data Result {ℓ} (E A : Type ℓ) : Type ℓ where
  ok : A → Result E A
  err : E → Result E A

abbrev pub History : Type 0 → Type 0
History C = List (C × Bool)

pub record World (C : Type 0) : Type 0 where
  pub calls : History C
  pub readings : ℕ
  pub ids : ℕ

pub record Env (C : Type 0) : Type 0 where
  pub accepts : History C → C → Bool
  pub clock : ℕ → ℕ
  pub uuid : ℕ → String

-- A function that may call the outside and returns a value or an `error`.
abbrev pub Action : Type 0 → Type 0 → Type 0 → Type 0
Action C E A = World C → Result E A × World C

module _ {C E : Type 0} where
  abbrev pub pure : {A : Type 0} → A → Action C E A
  pure a w = (ok a, w)

  abbrev pub fail : {A : Type 0} → E → Action C E A
  fail e w = (err e, w)

  abbrev continue : {A B : Type 0} → Result E A → (A → Action C E B) → Action C E B
  continue (ok a) f w = f a w
  continue (err e) f w = (err e, w)

  infixl 5 ◌>>=◌ ◌>>◌
  abbrev pub ◌>>=◌ : {A B : Type 0} → Action C E A → (A → Action C E B) → Action C E B
  ◌>>=◌ m f w = let (r, w') = m w in continue r f w'

  abbrev pub ◌>>◌ : {B : Type 0} → Action C E (Unit {0}) → Action C E B → Action C E B
  m >> n = m >>= λ _. n

  -- `_ = call(…)`: the error is dropped
  abbrev pub ignore : {A : Type 0} → Action C E A → Action C E (Unit {0})
  ignore m w = (ok tt, (m w).1)

  -- `if test { return e }`
  abbrev pub refuse_if : Bool → E → Action C E (Unit {0})
  refuse_if true e w = (err e, w)
  refuse_if false e w = (ok tt, w)

  -- a read: what the outside answers after these calls
  abbrev pub ask : {A : Type 0} → (History C → Result E A) → Action C E A
  ask q w = (q w.calls, w)

  -- a handler tests `err != nil` itself: an action as a pair of the value and the error
  abbrev pub attempt : {A : Type 0} → Action C E A → Action C E (Result E A)
  attempt m w = let (r, w') = m w in (ok r, w')

module _ {C : Type 0} (env : Env C) where
  -- one call of the outside, recorded with its outcome
  unfoldable pub call : {E : Type 0} → E → C → Action C E (Unit {0})
  call e c w =
      let b = env.accepts w.calls c in
      (if b then ok tt else err e, record w { calls = (c, b) ∷ w.calls })

  -- time.Now().UTC(), in nanoseconds since the epoch
  unfoldable pub now : {E : Type 0} → Action C E ℕ
  now w = (ok (env.clock w.readings), record w { readings = suc w.readings })

  -- uuid.NewString()
  unfoldable pub new_uuid : {E : Type 0} → Action C E String
  new_uuid w = (ok (env.uuid w.ids), record w { ids = suc w.ids })
