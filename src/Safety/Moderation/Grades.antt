-- ===== src/Safety/Moderation/Grades.antt =====
-- The score and the action of a decision of Moderate, pkg/safety/service.go.
use nexus_chat.Base.{
  ℕ, ◌+◌, ◌/◌, ◌≤◌, ◌<◌, ◌==◌, String, ◌≡◌, refl, sym, subst, str_eq, Bool, true, false, not, ◌&&◌,
  ◌||◌, List, [], ◌∷◌, arith, ltb, leb, if◌then◌else◌, All,
}
use nexus_chat.Effects.{Result, ok, err, Env, pure, History, call}
use mathlib.Core.Bool.{false≢true}
use nexus_chat.Effects.Facts.{
  Returns, Returns-pure, Returns-bind, Returns-attempt, Returns-ignore, Returns-ask, Returns-now,
  Returns-new_uuid, Anything,
}
use nexus_chat.Realtime.Outbox.{Event}
use nexus_chat.Safety.{
  Decision, Rule, Payload, Call, Queries, Texts, Limits, Error, unavailable, expire_rate,
  count_rate, count_repeat,
}
use nexus_chat.Safety.Moderation.{
  increment, verdict, check_text, matches_rule, apply_rule, apply_rules, enabled_rules, decide,
  judge, check_rate, check_repeat, count_repeat_of, after_rate, after_repeat, mute_if,
  persist_decision, conclude, moderate_active, rate_window, moderate_unless, moderate, new_decision,
}

-- The action that the thresholds give to a score.
abbrev pub grade : Limits → ℕ → String
grade limits score =
    if leb limits.block_score score
    then "block"
    else if leb limits.warn_score score
    then "warn"
    else "allow"

-- A rule counts: it is enabled, and its pattern compiles and is found.
abbrev pub counts : Texts → String → Rule → Bool
counts texts text rule = rule.enabled && matches_rule texts text rule

abbrev pub Reaches : Texts → String → List Rule → ℕ → Type 0
Reaches texts text rules score =
    All (λ rule. (not (counts texts text rule) || leb rule.score score) ≡ true) rules

Reaches-more :
    (texts : Texts) (text : String) (rules : List Rule) (s s' : ℕ)
    → s ≤ s'
    → Reaches texts text rules s
    → Reaches texts text rules s'
Reaches-more texts text [] s s' h r = tt
Reaches-more texts text (rule ∷ rules) s s' h r =
    (ground (arith, h, r.0), Reaches-more texts text rules s s' h r.1)

-- the rules only raise the score, and reach that of each rule that counts
apply_rules-Reaches :
    (texts : Texts) (text : String) (rules : List Rule) (d : Decision)
    → (d.score ≤ (apply_rules texts text (enabled_rules rules) d).score)
      × Reaches texts text rules (apply_rules texts text (enabled_rules rules) d).score
unfolding apply_rules enabled_rules
apply_rules-Reaches texts text [] d = (omega arith, tt)
apply_rules-Reaches texts text (rule ∷ rules) d =
    branch rule.enabled refl (apply_rules-Reaches texts text rules)
  where
    branch :
        (b : Bool)
        → rule.enabled ≡ b
        → ((c : Decision)
            → (c.score ≤ (apply_rules texts text (enabled_rules rules) c).score)
              × Reaches texts text rules (apply_rules texts text (enabled_rules rules) c).score)
        → (d.score
            ≤ (apply_rules texts text
                (if b then rule ∷ enabled_rules rules else enabled_rules rules)
                d).score)
          × Reaches texts text
              (rule ∷ rules)
              (apply_rules texts text
                (if b then rule ∷ enabled_rules rules else enabled_rules rules)
                d).score
    branch true e k =
        let (h, r) = k (apply_rule texts text rule d) in
        (ground (arith, h), (ground (arith, h, e), r))
    branch false e k = let (h, r) = k d in (h, (ground (arith, e), r))

-- the thresholds set the action and nothing else
decide-grade :
    (limits : Limits) (d : Decision)
    → (decide limits d).action ≡ grade limits (decide limits d).score
unfolding decide
decide-grade limits d =
    branch (leb limits.block_score d.score) (leb limits.warn_score d.score) refl refl
  where
    branch :
        (b c : Bool)
        → leb limits.block_score d.score ≡ b
        → leb limits.warn_score d.score ≡ c
        → (if b
            then record d { action = "block" }
            else if c
            then record d { action = "warn" }
            else record d { action = "allow" }).action
          ≡ grade limits
              (if b
                then record d { action = "block" }
                else if c
                then record d { action = "warn" }
                else record d { action = "allow" }).score
    branch true c e f = rw e refl
    branch false true e f = rw (e, f) refl
    branch false false e f = rw (e, f) refl

decide-score : (limits : Limits) (d : Decision) → (decide limits d).score ≡ d.score
unfolding decide
decide-score limits d = branch (leb limits.block_score d.score) (leb limits.warn_score d.score)
  where
    branch :
        (b c : Bool)
        → (if b
            then record d { action = "block" }
            else if c
            then record d { action = "warn" }
            else record d { action = "allow" }).score
          ≡ d.score
    branch true c = refl
    branch false true = refl
    branch false false = refl

-- The action is that of the thresholds for the score, and the score is at least that of each
-- rule that counts for the text.
abbrev pub IsGraded : Texts → Limits → String → List Rule → Decision → Type 0
IsGraded texts limits text rules d =
    (d.action ≡ grade limits d.score) × Reaches texts text rules d.score

judge-IsGraded :
    (texts : Texts) (limits : Limits) (text : String) (rules : List Rule) (d : Decision)
    → IsGraded texts limits text rules
        (decide limits (apply_rules texts text (enabled_rules rules) (check_text texts text d)))
judge-IsGraded texts limits text rules d =
    let c = apply_rules texts text (enabled_rules rules) (check_text texts text d) in
    (
      decide-grade limits c,
      rw (decide-score limits c) (apply_rules-Reaches texts text rules (check_text texts text d)).1,
    )

module _ (env : Env Call) (encode : Event Payload → String) (queries : Queries) (texts : Texts)
    (limits : Limits) where
  conclude-Returns :
      (Q : Decision → Type 0) (d : Decision)
      → Q d
      → Returns
          (λ (p : Decision × Result Error (Unit {0})). Q p.0)
          (conclude env encode queries texts limits d)
  unfolding conclude
  conclude-Returns Q d q =
      Returns-bind _ _ (Returns-attempt (persist_decision env encode queries texts limits d))
        λ r _. Returns-pure (d, r) q

  mute_if-Returns :
      (b : Bool) (d : Decision) → Returns Anything (mute_if env encode queries texts limits b d)
  unfolding mute_if
  mute_if-Returns false d = Returns-pure d tt
  mute_if-Returns true d = record { at = λ w. (_, (refl, tt)) }

  after_rate-Returns :
      (window : ℕ) (r : Result Error ℕ) (d : Decision)
      → Returns Anything (after_rate env encode queries texts limits window r d)
  unfolding after_rate
  after_rate-Returns window (err e) d = Returns-pure d tt
  after_rate-Returns window (ok count) d =
      Returns-bind _ _
        (Returns-ignore
          (call env unavailable (expire_rate d.user_id window (limits.window_second + 2))))
        λ u _. mute_if-Returns (ltb limits.max_messages count) d

  check_rate-Returns :
      (window : ℕ) (d : Decision)
      → Returns Anything (check_rate env encode queries texts limits window d)
  unfolding check_rate
  check_rate-Returns window d =
      Returns-bind _ _
        (Returns-attempt (
          increment env encode queries texts limits (count_rate d.user_id window)
            (λ h. queries.rate h d.user_id window)))
        λ r _. after_rate-Returns window r d

  after_repeat-Returns :
      (key : String) (r : Result Error ℕ) (d : Decision)
      → Returns Anything (after_repeat env encode queries texts limits key r d)
  unfolding after_repeat
  after_repeat-Returns key (err e) d = Returns-pure d tt
  after_repeat-Returns key (ok n) d = record { at = λ w. (_, (refl, tt)) }

  check_repeat-Returns :
      (text : String) (d : Decision)
      → Returns Anything (check_repeat env encode queries texts limits text d)
  unfolding check_repeat count_repeat_of
  check_repeat-Returns text d = empty_or (str_eq text "")
    where
      empty_or :
          (b : Bool)
          → Returns Anything
              (if b then pure d else count_repeat_of env encode queries texts limits text d)
      empty_or true = Returns-pure d tt
      empty_or false =
          Returns-bind _ _
            (Returns-attempt (
              increment env encode queries texts limits (count_repeat d.user_id (texts.lower text))
                (λ h. queries.repeats h d.user_id (texts.lower text))))
            λ n _. after_repeat-Returns (texts.lower text) n d

  moderate_active-Returns :
      (rules : List Rule) (window : ℕ) (text : String) (d : Decision)
      → ((h : History Call) → queries.rules h ≡ rules)
      → Returns
          (λ (p : Decision × Result Error (Unit {0})). IsGraded texts limits text rules p.0)
          (moderate_active env encode queries texts limits window text d)
  unfolding moderate_active
  moderate_active-Returns rules window text d k =
      Returns-bind _ _ (check_rate-Returns window d) λ c _.
        Returns-bind _ _ (check_repeat-Returns text c) λ b _.
          Returns-bind _ _ (Returns-ask (λ found. found ≡ rules) queries.rules k) λ found e.
            conclude-Returns (IsGraded texts limits text rules)
              (judge env encode queries texts limits text found b)
              (subst
                (λ xs.
                  IsGraded texts limits text rules
                    (judge env encode queries texts limits text xs b))
                (sym e) (judge-IsGraded texts limits text rules b))

  -- a window that is not 0 seconds long is one that time can be divided by
  rate_window-Returns :
      0 < limits.window_second
      → (t : ℕ) → Returns Anything (rate_window env encode queries texts limits t)
  unfolding rate_window
  rate_window-Returns z t =
      let positive : (limits.window_second == 0) ≡ false = ground arith in
      rw positive (Returns-pure (t / 1000000000 / limits.window_second) tt)

-- Where the window of the rate limit is not 0 seconds, Moderate always returns a decision, whatever
-- call fails. For a user who is muted it has the score 100 and the action "block"; for every other, if
-- the table of rules does not change meanwhile, its action is that of the thresholds for its score,
-- and its score is at least that of each enabled rule whose pattern compiles and is found in the
-- trimmed text.
pub moderate-Returns :
    (env : Env Call) (encode : Event Payload → String) (queries : Queries) (texts : Texts)
    (limits : Limits) (rules : List Rule) (channel message user : ℕ) (content : String) (b : Bool)
    → 0 < limits.window_second
    → ((h : History Call) → queries.rules h ≡ rules)
    → ((h : History Call) → queries.muted h user ≡ b)
    → Returns
        (λ (p : Decision × Result Error (Unit {0})).
          if b
          then (p.0.score ≡ 100) × (p.0.action ≡ "block")
          else IsGraded texts limits (texts.trim content) rules p.0)
        (moderate env encode queries texts limits channel message user content)
unfolding moderate moderate_unless
moderate-Returns env encode queries texts limits rules channel message user content b z k m =
    Returns-bind _ _ (Returns-now env) λ t _. Returns-bind _ _ (Returns-new_uuid env) λ id _.
      Returns-bind _ _ (Returns-ask (λ found. found ≡ b) (λ h. queries.muted h user) m) λ found e.
        muted_or b found e t
          (new_decision env encode queries texts limits id channel message user t)
  where
    muted_or :
        (b found : Bool)
        → found ≡ b
        → (t : ℕ) (d : Decision)
        → Returns
            (λ (p : Decision × Result Error (Unit {0})).
              if b
              then (p.0.score ≡ 100) × (p.0.action ≡ "block")
              else IsGraded texts limits (texts.trim content) rules p.0)
            (moderate_unless env encode queries texts limits found t (texts.trim content) d)
    muted_or true true e t d =
        conclude-Returns env encode queries texts limits
          (λ (c : Decision). (c.score ≡ 100) × (c.action ≡ "block"))
          (verdict 100 "block" "temporarily rate limited" d) (refl, refl)
    muted_or false false e t d =
        Returns-bind _ _ (rate_window-Returns env encode queries texts limits z t) λ window _.
          moderate_active-Returns env encode queries texts limits rules window (texts.trim content)
            d k
    muted_or true false e t d = absurd (false≢true e)
    muted_or false true e t d = absurd (false≢true (sym e))
