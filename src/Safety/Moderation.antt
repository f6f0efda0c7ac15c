-- ===== src/Safety/Moderation.antt =====
-- Moderate and persistDecision of pkg/safety/service.go.
pub mod Grades
use nexus_chat.Base.{
  ℕ, ◌+◌, ◌/◌, ◌≤◌, ◌<◌, String, ◌≡◌, refl, ◌∙◌, ap, Bool, true, false, not, ◌&&◌, ◌⊎◌, inl, inr,
  List, [], ◌∷◌, Option, some, none, arith, str_eq, ◌==◌, ltb, leb, if◌then◌else◌, Bool-cases,
}
use Prim.Native.String.{◌++◌}
use nexus_chat.Effects.{
  Result, ok, err, World, Env, History, Action, ◌>>=◌, ◌>>◌, pure, fail, ignore, attempt, ask, call,
  now, new_uuid,
}
use nexus_chat.Realtime.Outbox.{Event, new_event, publish_durably}
use nexus_chat.Safety.{
  Decision, Rule, Payload, decided, Call, count_rate, expire_rate, mute, count_repeat,
  expire_repeat, insert_decision_by_channel, insert_decision_by_user, set_risk, outbox, Queries,
  Texts, Limits, Error, unavailable, panicked,
}

-- decision.Score, decision.Action, decision.Reason = …
abbrev pub verdict : ℕ → String → String → Decision → Decision
verdict score action reason d = record d { score = score; action = action; reason = reason }

module _ (texts : Texts) where
  -- the fixed patterns
  unfoldable pub check_text : String → Decision → Decision
  check_text text d =
      if texts.is_scam text && ltb d.score 85
      then verdict 85 "block" "possible scam" d
      else if texts.is_toxic text && ltb d.score 60
      then verdict 60 "warn" "possible harassment" d
      else if texts.has_url text && ltb d.score 45
      then verdict 45 "warn" "external link" d
      else d

  abbrev pub is_match : Option Bool → Bool
  is_match none = false
  is_match (some b) = b

  -- the pattern of the rule compiles and is found
  abbrev pub matches_rule : String → Rule → Bool
  matches_rule text rule = is_match (texts.matches rule.pattern text)

  abbrev pub apply_rule : String → Rule → Decision → Decision
  apply_rule text rule d =
      if matches_rule text rule && ltb d.score rule.score
      then record d { score = rule.score; reason = rule.name }
      else d

  unfoldable pub apply_rules : String → List Rule → Decision → Decision
  apply_rules text [] d = d
  apply_rules text (rule ∷ rules) d = apply_rules text rules (apply_rule text rule d)

-- enabledRules
unfoldable pub enabled_rules : List Rule → List Rule
enabled_rules [] = []
enabled_rules (rule ∷ rules) =
    let rest = enabled_rules rules in if rule.enabled then rule ∷ rest else rest

-- the switch over the thresholds
unfoldable pub decide : Limits → Decision → Decision
decide limits d =
    if leb limits.block_score d.score
    then record d { action = "block" }
    else if leb limits.warn_score d.score
    then record d { action = "warn" }
    else record d { action = "allow" }

module _ (env : Env Call) (encode : Event Payload → String) (queries : Queries) (texts : Texts)
    (limits : Limits) where
  -- INCR, with the value that it answers
  unfoldable pub increment : Call → (History Call → ℕ) → Action Call Error ℕ
  unfolding call
  increment c value = do call env unavailable c; ask (λ h. ok (value h))

  unfoldable pub mute_if : Bool → Decision → Action Call Error Decision
  unfolding call
  mute_if false d = pure d
  mute_if true d = do
    ignore {E = Error} (call env unavailable (mute d.user_id limits.mute_second))
    pure (verdict 90 "block" "message flood detected" d)

  unfoldable pub after_rate : ℕ → Result Error ℕ → Decision → Action Call Error Decision
  unfolding call mute_if
  after_rate window (err e) d = pure d
  after_rate window (ok count) d = do
    ignore {E = Error}
        (call env unavailable (expire_rate d.user_id window (limits.window_second + 2)))
    mute_if (ltb limits.max_messages count) d

  unfoldable pub check_rate : ℕ → Decision → Action Call Error Decision
  unfolding increment after_rate
  check_rate window d = do
    count ← attempt (increment (count_rate d.user_id window) (λ h. queries.rate h d.user_id window))
    after_rate window count d

  unfoldable pub after_repeat : String → Result Error ℕ → Decision → Action Call Error Decision
  unfolding call
  after_repeat key (err e) d = pure d
  after_repeat key (ok n) d = do
    ignore {E = Error} (call env unavailable (expire_repeat d.user_id key 120))
    pure (if leb 4 n && ltb d.score 75 then verdict 75 "block" "repeated spam" d else d)

  unfoldable pub count_repeat_of : String → Decision → Action Call Error Decision
  unfolding increment after_repeat
  count_repeat_of text d = do
    let key = texts.lower text
    n ← attempt (increment (count_repeat d.user_id key) (λ h. queries.repeats h d.user_id key))
    after_repeat key n d

  unfoldable pub check_repeat : String → Decision → Action Call Error Decision
  unfolding count_repeat_of
  check_repeat text d = if str_eq text "" then pure d else count_repeat_of text d

  -- persistDecision
  unfoldable pub persist_event : Decision → Action Call Error (Unit {0})
  unfolding new_event publish_durably
  persist_event d = ignore (do
    event ←
        new_event env outbox unavailable ("safety.message." ++ d.action ++ "ed") "safety-service"
          d.id (decided d)
    publish_durably env outbox unavailable encode "safety" "nexuschat.safety.events.v1" event)

  unfoldable pub persist_decision : Decision → Action Call Error (Unit {0})
  unfolding call persist_event
  persist_decision d = if ltb d.score limits.warn_score then pure tt else (do
    call env unavailable (insert_decision_by_channel d)
    ignore {E = Error} (call env unavailable (insert_decision_by_user d))
    ignore {E = Error} (call env unavailable (set_risk d.user_id d.score))
    persist_event d)

  -- `return decision, s.persistDecision(ctx, decision)`
  unfoldable pub conclude : Decision → Action Call Error (Decision × Result Error (Unit {0}))
  unfolding persist_decision
  conclude d = do r ← attempt (persist_decision d); pure (d, r)

  -- what the rules and the thresholds make of a decision, given the table of rules
  abbrev pub judge : String → List Rule → Decision → Decision
  judge text rules d =
      decide limits (apply_rules texts text (enabled_rules rules) (check_text texts text d))

  unfoldable pub moderate_active :
      ℕ → String → Decision → Action Call Error (Decision × Result Error (Unit {0}))
  unfolding check_rate check_repeat conclude
  moderate_active window text d = do
    d ← check_rate window d
    d ← check_repeat text d
    rules ← ask {E = Error} (λ h. ok (queries.rules h))
    conclude (judge text rules d)

  abbrev pub new_decision : String → ℕ → ℕ → ℕ → ℕ → Decision
  new_decision id channel message user t = record {
    id = id;
    channel_id = channel;
    message_id = message;
    user_id = user;
    score = 0;
    action = "allow";
    reason = "";
    created_at = t;
  }

  -- now.Unix() / WindowSecond, which panics where WindowSecond is 0
  unfoldable pub rate_window : ℕ → Action Call Error ℕ
  rate_window t =
      if limits.window_second == 0
      then fail panicked
      else pure (t / 1000000000 / limits.window_second)

  -- at the time `t`
  unfoldable pub moderate_unless :
      Bool → ℕ → String → Decision → Action Call Error (Decision × Result Error (Unit {0}))
  unfolding rate_window moderate_active conclude
  moderate_unless true t text d = conclude (verdict 100 "block" "temporarily rate limited" d)
  moderate_unless false t text d = do window ← rate_window t; moderate_active window text d

  -- Moderate
  unfoldable pub moderate :
      ℕ → ℕ → ℕ → String → Action Call Error (Decision × Result Error (Unit {0}))
  unfolding now new_uuid moderate_unless
  moderate channel message user content = do
    t ← now env
    id ← new_uuid env
    let d = new_decision id channel message user t
    muted ← ask {E = Error} (λ h. ok (queries.muted h user))
    moderate_unless muted t (texts.trim content) d
