-- ===== src/Cassandra.antt =====
-- Statements of Cassandra, as the repositories send them through a gocql.Session.
--
-- The n-th statement succeeds, fails, or fails after it was applied, as `works n` says; what other
-- instances of the services did since the statement before is `others n`. A conditional statement
-- applies if its condition holds where it runs.
use nexus_chat.Base.{◌≡◌, refl, ℕ, suc, Bool, true, false, Option, none, some, if◌then◌else◌}
use nexus_chat.Effects.{Result, ok, err}
use nexus_chat.Stateful.{Op, Ends, Ensures, Keeps, Keeps-after}

pub data Outcome : Type 0 where
  done failed failed_applied : Outcome

pub record Database (T : Type 0) : Type 0 where
  pub tables : T
  pub statements : ℕ

pub record Session (T E : Type 0) : Type 0 where
  pub unavailable : E
  pub works : ℕ → Outcome
  pub others : ℕ → T → T

module _ {T : Type 0} where
  abbrev pub after : T → Database T → Database T
  after t d = record { tables = t; statements = suc d.statements }

  abbrev pub On : (T → Type 0) → Database T → Type 0
  On P d = P d.tables

  -- nothing is known of the tables
  unfoldable pub Unknown : T → Type 0
  Unknown t = Unit

  pub unknown : (t : T) → Unknown t
  unfolding Unknown
  unknown t = tt

  -- no tables are like this
  unfoldable pub Never : T → Type 0
  Never t = ◌≡◌ {A = Bool} true false

  pub impossible {ℓ} : {A : Type ℓ} (t : T) → Never t → A
  unfolding Never
  impossible t n = absurd cc

module _ {T E : Type 0} where
  abbrev pub ended :
      {A : Type 0} → E → Outcome → A → Database T → Database T → Result E A × Database T
  ended e done a t u = (ok a, u)
  ended e failed a t u = (err e, t)
  ended e failed_applied a t u = (err e, u)

  -- the tables that a statement of the session finds
  abbrev pub found_by : Session T E → Database T → T
  found_by s d = s.others d.statements d.tables

  unfoldable pub statement : {A : Type 0} → Session T E → (T → A) → (T → T) → Op (Database T) E A
  statement s answer effect d =
      ended s.unavailable (s.works d.statements) (answer (found_by s d)) (after (found_by s d) d)
        (after (effect (found_by s d)) d)

  abbrev pub write : Session T E → (T → T) → Op (Database T) E (Unit {0})
  write s f = statement s (λ t. tt) f

  abbrev pub read : {A : Type 0} → Session T E → (T → A) → Op (Database T) E A
  read s g = statement s g (λ t. t)

  -- a conditional statement: whether it was applied
  abbrev pub write_if : Session T E → (T → Bool) → (T → T) → Op (Database T) E Bool
  write_if s p f = statement s p (λ t. if p t then f t else t)

  -- `_ = statement`
  abbrev pub ignore : {A : Type 0} → Op (Database T) E A → Op (Database T) E (Unit {0})
  ignore m d = (ok tt, (m d).1)

  -- an operation whose error is passed over
  abbrev pub or_none : {A : Type 0} → Result E A × Database T → Result E (Option A) × Database T
  or_none (ok a, d) = (ok (some a), d)
  or_none (err e, d) = (ok none, d)

  abbrev pub attempt : {A : Type 0} → Op (Database T) E A → Op (Database T) E (Option A)
  attempt m d = or_none (m d)

  -- what the other instances do not break
  abbrev pub Stable : Session T E → (T → Type 0) → Type 0
  Stable s P = (n : ℕ) (t : T) → P t → P (s.others n t)

  pub Ends-ended :
      {A : Type 0} (Q : A → T → Type 0) (R : T → Type 0) (e : E) (o : Outcome) (a : A) (t u : T)
      (d : Database T)
      → R t
      → Q a u
      → R u
      → Ends (λ x. On (Q x)) (On R) (ended e o a (after t d) (after u d))
  Ends-ended Q R e done a t u d r q r' = q
  Ends-ended Q R e failed a t u d r q r' = r
  Ends-ended Q R e failed_applied a t u d r q r' = r'

  pub Ensures-statement :
      {A : Type 0} (P : T → Type 0) (Q : A → T → Type 0) (R : T → Type 0) (s : Session T E)
      (answer : T → A) (effect : T → T)
      → Stable s P
      → ((t : T) → P t → R t)
      → ((t : T) → P t → Q (answer t) (effect t) × R (effect t))
      → Ensures (On P) (λ a. On (Q a)) (On R) (statement s answer effect)
  unfolding statement
  Ensures-statement P Q R s answer effect stable r q = record {
    at = λ d p.
        Ends-ended Q R _ (s.works d.statements) _ _ _ d (r _ (stable _ d.tables p))
          (q _ (stable _ d.tables p)).0 (q _ (stable _ d.tables p)).1;
  }

  pub Keeps-statement :
      {A : Type 0} (P : T → Type 0) (s : Session T E) (answer : T → A) (effect : T → T)
      → Stable s P
      → ((t : T) → P t → P (effect t))
      → Keeps (On P) (statement s answer effect)
  Keeps-statement P s answer effect stable k =
      Ensures-statement P (λ a. P) P s answer effect stable (λ t p. p) λ t p. (k t p, k t p)

  pub Keeps-ignore :
      {A : Type 0} (P : T → Type 0) (m : Op (Database T) E A)
      → Keeps (On P) m
      → Keeps (On P) (ignore m)
  Keeps-ignore P m k = record { at = λ d p. Keeps-after m d k p }

  pub Keeps-attempt :
      {A : Type 0} (P : T → Type 0) (m : Op (Database T) E A)
      → Keeps (On P) m
      → Keeps (On P) (attempt m)
  Keeps-attempt {A} P m k = record { at = λ d p. passed (m d) (Keeps-after m d k p) }
    where
      passed :
          (x : Result E A × Database T)
          → P x.1.tables
          → Ends {A = Option A} (λ o. On P) (On P) (or_none x)
      passed (ok a, d) p = p
      passed (err e, d) p = p

  pub read-done :
      {A : Type 0} (s : Session T E) (g : T → A) (d : Database T)
      → s.works d.statements ≡ done
      → read s g d ≡ (ok (g (found_by s d)), after (found_by s d) d)
  unfolding statement
  read-done s g d e = rw e refl
