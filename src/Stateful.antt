-- ===== src/Stateful.antt =====
-- Fallible operations on a state that the program reaches through a database: `Op S E A` returns a
-- value or an error with the new state. An error keeps what the earlier statements did.
use nexus_chat.Base.{◌≡◌, refl, subst, Bool, true, false, if◌then◌else◌}
use nexus_chat.Effects.{Result, ok, err}

abbrev pub Op : Type 0 → Type 0 → Type 0 → Type 0
Op S E A = S → Result E A × S

module _ {S E : Type 0} where
  abbrev pub return : {A : Type 0} → A → Op S E A
  return a s = (ok a, s)

  abbrev pub throw : {A : Type 0} → E → Op S E A
  throw e s = (err e, s)

  abbrev pub continue : {A B : Type 0} → (A → Op S E B) → Result E A × S → Result E B × S
  continue f (ok a, s) = f a s
  continue f (err e, s) = (err e, s)

  infixl 5 ◌>>=◌ ◌>>◌
  abbrev pub ◌>>=◌ : {A B : Type 0} → Op S E A → (A → Op S E B) → Op S E B
  ◌>>=◌ m f s = continue f (m s)

  abbrev pub ◌>>◌ : {B : Type 0} → Op S E (Unit {0}) → Op S E B → Op S E B
  m >> n = m >>= λ _. n

  -- `if test { return e }`
  abbrev pub throw_if : Bool → E → Op S E (Unit {0})
  throw_if true e s = (err e, s)
  throw_if false e s = (ok tt, s)

  -- From a state in `P`, an operation that returns `a` ends in `Q a`, and one that fails in `R`.
  abbrev pub Ends : {A : Type 0} → (A → S → Type 0) → (S → Type 0) → Result E A × S → Type 0
  Ends Q R (ok a, s) = Q a s
  Ends Q R (err e, s) = R s

  pub record Ensures {A : Type 0} (P : S → Type 0) (Q : A → S → Type 0) (R : S → Type 0)
      (m : Op S E A) : Type 0 where
    pub at : (s : S) → P s → Ends Q R (m s)

  -- A property of the state that an operation keeps, whether it succeeds or fails.
  abbrev pub Keeps : {A : Type 0} → (S → Type 0) → Op S E A → Type 0
  Keeps P m = Ensures P (λ a. P) P m

  pub Ensures-return :
      {A : Type 0} {P : S → Type 0} {Q : A → S → Type 0} {R : S → Type 0} (a : A)
      → ((s : S) → P s → Q a s)
      → Ensures P Q R (return a)
  Ensures-return a k = record { at = k }

  pub Keeps-return : {A : Type 0} {P : S → Type 0} (a : A) → Keeps P (return a)
  Keeps-return a = record { at = λ s p. p }

  pub Keeps-throw : {A : Type 0} {P : S → Type 0} (e : E) → Keeps {A = A} P (throw e)
  Keeps-throw e = record { at = λ s p. p }

  pub Keeps-throw_if : {P : S → Type 0} (b : Bool) (e : E) → Keeps P (throw_if b e)
  Keeps-throw_if true e = record { at = λ s p. p }
  Keeps-throw_if false e = record { at = λ s p. p }

  pub Ensures-bind :
      {A B : Type 0} {P : S → Type 0} {Q : A → S → Type 0} {Q' : B → S → Type 0} {R : S → Type 0}
      (m : Op S E A) (f : A → Op S E B)
      → Ensures P Q R m
      → ((a : A) → Ensures (Q a) Q' R (f a))
      → Ensures P Q' R (m >>= f)
  Ensures-bind {A = A} {Q = Q} {Q' = Q'} {R = R} m f km kf = record {
    at = λ s p. rest (m s) (km.at s p);
  }
    where
      rest : (x : Result E A × S) → Ends Q R x → Ends Q' R (continue f x)
      rest (ok a, s) p = (kf a).at s p
      rest (err e, s) p = p

  pub Ensures-error :
      {A : Type 0} {P : S → Type 0} {Q : A → S → Type 0} {R : S → Type 0} {m : Op S E A}
      → Ensures P Q R m
      → Ensures P Q (λ s. Unit) m
  Ensures-error {A = A} {Q = Q} {R = R} {m = m} k = record { at = λ s p. rest (m s) (k.at s p) }
    where
      rest : (x : Result E A × S) → Ends Q R x → Ends Q (λ s. Unit) x
      rest (ok a, t) q = q
      rest (err e, t) q = tt

  -- a fact of the values alone, in the precondition
  pub Ensures-given :
      {A : Type 0} {X : Type 0} {P : S → Type 0} {Q : A → S → Type 0} {R : S → Type 0}
      (m : Op S E A)
      → (X → Ensures P Q R m)
      → Ensures (λ s. X × P s) Q R m
  Ensures-given m k = record { at = λ s p. (k p.0).at s p.1 }

  pub Ensures-if :
      {A : Type 0} {P : S → Type 0} {Q : A → S → Type 0} {R : S → Type 0} (b : Bool)
      (m n : Op S E A)
      → (b ≡ true → Ensures P Q R m)
      → (b ≡ false → Ensures P Q R n)
      → Ensures P Q R (if b then m else n)
  Ensures-if true m n km kn = km refl
  Ensures-if false m n km kn = kn refl

  -- what an operation ends in, whether it succeeds or fails
  pub Keeps-after :
      {A : Type 0} {P : S → Type 0} (m : Op S E A) (s : S) → Keeps P m → P s → P (m s).1
  Keeps-after {A = A} {P = P} m s k p = rest (m s) (k.at s p)
    where
      rest : (x : Result E A × S) → Ends {A = A} (λ a. P) P x → P x.1
      rest (ok a, t) q = q
      rest (err e, t) q = q

  -- what a success ends in
  pub Ensures-ok :
      {A : Type 0} {P : S → Type 0} {Q : A → S → Type 0} {R : S → Type 0} (m : Op S E A) (s t : S)
      (a : A)
      → Ensures P Q R m
      → P s
      → m s ≡ (ok a, t)
      → Q a t
  Ensures-ok {A = A} {Q = Q} {R = R} m s t a k p e = subst (Ends Q R) e (k.at s p)

  -- what a success tells of the two operations of a bind
  pub bind-ok :
      {A B : Type 0} (m : Op S E A) (f : A → Op S E B) (s : S) (b : B) (u : S)
      → (m >>= f) s ≡ (ok b, u)
      → (a : A) × ((t : S) × ((m s ≡ (ok a, t)) × (f a t ≡ (ok b, u))))
  bind-ok {A = A} {B = B} m f s b u e = rest (m s) refl e
    where
      rest :
          (x : Result E A × S)
          → m s ≡ x
          → continue f x ≡ (ok b, u)
          → (a : A) × ((t : S) × ((m s ≡ (ok a, t)) × (f a t ≡ (ok b, u))))
      rest (ok a, t) p q = (a, (t, (p, q)))
      rest (err x, t) p q = cc

  -- a computation without a state among the operations
  abbrev pub lift : {A : Type 0} → Result E A → Op S E A
  lift r s = (r, s)

  pub lift-ok :
      {A B : Type 0} (r : Result E A) (f : A → Op S E B) (s : S) (b : B) (u : S)
      → (lift r >>= f) s ≡ (ok b, u)
      → (a : A) × ((r ≡ ok a) × (f a s ≡ (ok b, u)))
  lift-ok (ok a) f s b u e = (a, (refl, e))
  lift-ok (err x) f s b u e = cc

  pub Ensures-lift :
      {A B : Type 0} {P : S → Type 0} {Q : B → S → Type 0} {R : S → Type 0} (r : Result E A)
      (f : A → Op S E B)
      → ((s : S) → P s → R s)
      → ((a : A) → Ensures P Q R (f a))
      → Ensures P Q R (lift r >>= f)
  Ensures-lift (ok a) f k kf = record { at = λ s p. (kf a).at s p }
  Ensures-lift (err e) f k kf = record { at = k }

  pub Ensures-both :
      {A : Type 0} {P P' : S → Type 0} {Q Q' : A → S → Type 0} {R R' : S → Type 0} (m : Op S E A)
      → Ensures P Q R m
      → Ensures P' Q' R' m
      → Ensures (λ s. P s × P' s) (λ a s. Q a s × Q' a s) (λ s. R s × R' s) m
  Ensures-both {A = A} {Q = Q} {Q' = Q'} {R = R} {R' = R'} m k k' = record {
    at = λ s p. rest (m s) (k.at s p.0) (k'.at s p.1);
  }
    where
      rest :
          (x : Result E A × S)
          → Ends Q R x
          → Ends Q' R' x
          → Ends (λ a s. Q a s × Q' a s) (λ s. R s × R' s) x
      rest (ok a, t) q q' = (q, q')
      rest (err e, t) q q' = (q, q')

  -- weaker preconditions, stronger conclusions
  pub Ensures-weaken :
      {A : Type 0} {P P' : S → Type 0} {Q Q' : A → S → Type 0} {R R' : S → Type 0} (m : Op S E A)
      → Ensures P Q R m
      → ((s : S) → P' s → P s)
      → ((a : A) (s : S) → Q a s → Q' a s)
      → ((s : S) → R s → R' s)
      → Ensures P' Q' R' m
  Ensures-weaken {A = A} {Q = Q} {Q' = Q'} {R = R} {R' = R'} m k f g h = record {
    at = λ s p. rest (m s) (k.at s (f s p));
  }
    where
      rest : (x : Result E A × S) → Ends Q R x → Ends Q' R' x
      rest (ok a, t) q = g a t q
      rest (err e, t) q = h t q
