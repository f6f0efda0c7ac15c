-- ===== src/Fallible.antt =====
-- Functions that return a value or an error, without a state: Go's `(T, error)`.
use nexus_chat.Base.{◌≡◌, refl, Bool, true, false, Option, none, some}
use nexus_chat.Effects.{Result, ok, err}

module _ {E : Type 0} where
  infixl 5 ◌>>=◌ ◌>>◌
  abbrev pub ◌>>=◌ : {A B : Type 0} → Result E A → (A → Result E B) → Result E B
  ok a >>= f = f a
  err e >>= f = err e

  abbrev pub ◌>>◌ : {B : Type 0} → Result E (Unit {0}) → Result E B → Result E B
  m >> n = m >>= λ _. n

  -- `if test { return e }`
  abbrev pub refuse_if : Bool → E → Result E (Unit {0})
  refuse_if true e = err e
  refuse_if false e = ok tt

  abbrev pub or_refuse : {A : Type 0} → E → Option A → Result E A
  or_refuse e none = err e
  or_refuse e (some a) = ok a

  -- What a success tells of the steps that it went through.
  pub bind-ok :
      {A B : Type 0} (m : Result E A) (f : A → Result E B) (b : B)
      → (m >>= f) ≡ ok b
      → (a : A) × ((m ≡ ok a) × (f a ≡ ok b))
  bind-ok (ok a) f b e = (a, (refl, e))
  bind-ok (err x) f b e = cc

  pub refuse_if-ok :
      {B : Type 0} (c : Bool) (e : E) (m : Result E B) (b : B)
      → (refuse_if c e >> m) ≡ ok b
      → (c ≡ false) × (m ≡ ok b)
  refuse_if-ok true e m b h = cc
  refuse_if-ok false e m b h = (refl, h)

  pub or_refuse-ok :
      {A B : Type 0} (e : E) (o : Option A) (f : A → Result E B) (b : B)
      → (or_refuse e o >>= f) ≡ ok b
      → (a : A) × ((o ≡ some a) × (f a ≡ ok b))
  or_refuse-ok e none f b h = cc
  or_refuse-ok e (some a) f b h = (a, (refl, h))

  pub refusal-ok : (c : Bool) (e : E) → refuse_if c e ≡ ok tt → c ≡ false
  refusal-ok true e h = cc
  refusal-ok false e h = refl
