-- ===== src/Effects/Facts.antt =====
-- Statements about the calls that an action has made, and rules to prove them of a `do` block.
use nexus_chat.Base.{◌≡◌, refl, subst, sym, if◌then◌else◌, true, false, Bool, ◌∷◌}
use nexus_chat.Effects.{
  History, World, Env, Action, Result, ok, err, pure, fail, ◌>>=◌, ignore, attempt, refuse_if, call,
  now, new_uuid, ask,
}

-- The call was made and succeeded.
pub data Done {C : Type 0} (c : C) : History C → Type 0 where
  newest : {b : Bool} {h : History C} → b ≡ true → Done c ((c, b) ∷ h)
  earlier : {x : C × Bool} {h : History C} → Done c h → Done c (x ∷ h)

-- The history `h'` is `h` and later calls, each of which satisfies `P`.
pub data Adds {C : Type 0} (P : C → Type 0) (h : History C) : History C → Type 0 where
  same : Adds P h h
  more : {x : C × Bool} {h' : History C} → P x.0 → Adds P h h' → Adds P h (x ∷ h')

abbrev pub Extends : {C : Type 0} → History C → History C → Type 0
Extends h h' = Adds (λ _. Unit) h h'

pub Done-Adds :
    {C : Type 0} {P : C → Type 0} {c : C} {h h' : History C} → Done c h → Adds P h h' → Done c h'
Done-Adds d same = d
Done-Adds d (more p e) = earlier (Done-Adds d e)

pub Adds-trans :
    {C : Type 0} {P : C → Type 0} {h h' h'' : History C}
    → Adds P h h'
    → Adds P h' h''
    → Adds P h h''
Adds-trans a same = a
Adds-trans a (more p e) = more p (Adds-trans a e)

-- An action adds only calls that satisfy `P`, whether it succeeds or fails.
pub record Makes {C E A : Type 0} (P : C → Type 0) (m : Action C E A) : Type 0 where
  pub at : (w : World C) → Adds P w.calls (m w).1.calls

abbrev pub Grows : {C E A : Type 0} → Action C E A → Type 0
Grows m = Makes (λ _. Unit) m

module _ {C E A : Type 0} {P : C → Type 0} where
  pub Makes-pure : (a : A) → Makes P (pure {C = C} {E = E} a)
  Makes-pure a = record { at = λ w. same }

  pub Makes-fail : (e : E) → Makes P (fail {C = C} {E = E} {A = A} e)
  Makes-fail e = record { at = λ w. same }

  pub Makes-ask : (q : History C → Result E A) → Makes P (ask q)
  Makes-ask q = record { at = λ w. same }

  pub Makes-attempt : (m : Action C E A) → Makes P m → Makes P (attempt m)
  Makes-attempt m g = record { at = g.at }

  pub Makes-ignore : (m : Action C E A) → Makes P m → Makes P (ignore m)
  Makes-ignore m g = record { at = g.at }

  pub Makes-if :
      (b : Bool) (m n : Action C E A)
      → (b ≡ true → Makes P m)
      → (b ≡ false → Makes P n)
      → Makes P (if b then m else n)
  Makes-if true m n km kn = km refl
  Makes-if false m n km kn = kn refl

module _ {C E A B : Type 0} {P : C → Type 0} where
  -- the rest of the block may use the value that the first action returned
  pub Makes-bind_ok :
      (m : Action C E A) (f : A → Action C E B)
      → Makes P m
      → ((a : A) (w : World C) → (m w).0 ≡ ok a → Makes P (f a))
      → Makes P (m >>= f)
  Makes-bind_ok m f gm gf = record {
    at = λ w. Adds-trans (gm.at w) (rest (m w).0 (m w).1 (λ a e. gf a w e));
  }
    where
      rest :
          (r : Result E A) (w : World C)
          → ((a : A) → r ≡ ok a → Makes P (f a))
          → Adds P w.calls (((λ (v : World C). (r, v)) >>= f) w).1.calls
      rest (ok a) w g = (g a refl).at w
      rest (err e) w g = same

  pub Makes-bind :
      (m : Action C E A) (f : A → Action C E B)
      → Makes P m
      → ((a : A) → Makes P (f a))
      → Makes P (m >>= f)
  Makes-bind m f gm gf = Makes-bind_ok m f gm (λ a w e. gf a)

module _ {C E : Type 0} {P : C → Type 0} where
  pub Makes-refuse_if : (b : Bool) (e : E) → Makes P (refuse_if b e)
  Makes-refuse_if true e = record { at = λ w. same }
  Makes-refuse_if false e = record { at = λ w. same }

module _ {C E : Type 0} {P : C → Type 0} (env : Env C) where
  pub Makes-call : (e : E) (c : C) → P c → Makes P (call env e c)
  unfolding call
  Makes-call e c p = record { at = λ w. more p same }

  pub Makes-now : Makes P (now env {E = E})
  unfolding now
  Makes-now = record { at = λ w. same }

  pub Makes-new_uuid : Makes P (new_uuid env {E = E})
  unfolding new_uuid
  Makes-new_uuid = record { at = λ w. same }

pub ruleset makes_rules = (
  Makes-pure, Makes-fail, Makes-ask, Makes-attempt, Makes-ignore, Makes-if, Makes-bind,
  Makes-refuse_if, Makes-call, Makes-now, Makes-new_uuid,
)

-- An action always returns a value, which satisfies `Q`.
pub record Returns {C E A : Type 0} (Q : A → Type 0) (m : Action C E A) : Type 0 where
  pub at : (w : World C) → (a : A) × (((m w).0 ≡ ok a) × Q a)

module _ {C E A : Type 0} {Q : A → Type 0} where
  pub Returns-pure : (a : A) → Q a → Returns Q (pure {C = C} {E = E} a)
  Returns-pure a q = record { at = λ w. (a, (refl, q)) }

  pub Returns-if :
      (b : Bool) (m n : Action C E A)
      → (b ≡ true → Returns Q m)
      → (b ≡ false → Returns Q n)
      → Returns Q (if b then m else n)
  Returns-if true m n km kn = km refl
  Returns-if false m n km kn = kn refl

  pub Returns-bind :
      {B : Type 0} {P : B → Type 0} (m : Action C E B) (f : B → Action C E A)
      → Returns P m
      → ((b : B) → P b → Returns Q (f b))
      → Returns Q (m >>= f)
  Returns-bind {B = B} {P = P} m f km kf = record {
    at = λ w. let (b, (e, p)) = km.at w in rest (m w).0 (m w).1 b e p;
  }
    where
      rest :
          (r : Result E B) (w : World C) (b : B)
          → r ≡ ok b
          → P b
          → (a : A) × (((((λ (v : World C). (r, v)) >>= f) w).0 ≡ ok a) × Q a)
      rest (ok c) w b e p = (kf c (subst P (sym (ok_inj e)) p)).at w
        where
          ok_inj : {x y : B} → ◌≡◌ {A = Result E B} (ok x) (ok y) → x ≡ y
          ok_inj e = cc
      rest (err c) w b e p = absurd (no_value e)
        where
          no_value : ◌≡◌ {A = Result E B} (err c) (ok b) → ⊥
          no_value e = cc

abbrev pub Anything : {A : Type 0} → A → Type 0
Anything a = Unit

module _ {C E : Type 0} where
  pub Returns-attempt : {A : Type 0} (m : Action C E A) → Returns Anything (attempt m)
  Returns-attempt m = record { at = λ w. ((m w).0, (refl, tt)) }

  pub Returns-ignore : {A : Type 0} (m : Action C E A) → Returns Anything (ignore m)
  Returns-ignore m = record { at = λ w. (tt, (refl, tt)) }

  pub Returns-ask :
      {A : Type 0} (P : A → Type 0) (q : History C → A)
      → ((h : History C) → P (q h))
      → Returns P (ask {C = C} {E = E} (λ h. ok (q h)))
  Returns-ask P q k = record { at = λ w. (q w.calls, (refl, k w.calls)) }

module _ {C E : Type 0} (env : Env C) where
  pub Returns-now : Returns Anything (now env {E = E})
  unfolding now
  Returns-now = record { at = λ w. (env.clock w.readings, (refl, tt)) }

  pub Returns-new_uuid : Returns Anything (new_uuid env {E = E})
  unfolding new_uuid
  Returns-new_uuid = record { at = λ w. (env.uuid w.ids, (refl, tt)) }
