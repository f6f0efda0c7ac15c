-- ===== src/Safety/Handlers.antt =====
-- The handlers of reports, appeals, blocks and rules, and the gRPC methods, of
-- pkg/safety/service.go. `moderators` are the parts of SAFETY_MODERATOR_USER_IDS, `none` where a
-- part is no number, and `print` is strconv.FormatUint. The body of a request is `none` where it does not parse.
pub mod Guards
pub mod Candidates
use nexus_chat.Base.{
  ℕ, String, Bool, true, false, not, ◌&&◌, ◌||◌, List, [], ◌∷◌, Option, some, none, ◌==◌, ltb, leb,
  str_eq, is_blank, any, if◌then◌else◌,
}
use Prim.Native.String.{◌++◌}
use nexus_chat.Effects.{
  Result, ok, err, World, Env, History, Action, ◌>>=◌, ◌>>◌, pure, ignore, attempt, call, now,
  new_uuid,
}
use nexus_chat.Realtime.Outbox.{Event, new_event, publish_durably}
use nexus_chat.Workspace.{Identity}
use nexus_chat.Safety.{
  Report, Rule, Payload, reported, blocked, Call, outbox, insert_report_by_id,
  insert_report_by_status, update_report_status, insert_appeal, insert_block, add_block,
  erase_block, drop_block, insert_rule, change_rule, erase_rule, Queries, Texts, Limits, Error,
  unavailable,
}

pub data Reply : Type 0 where
  no_content : Reply
  refused : ℕ → String → Reply
  report_reply : ℕ → Report → Reply
  rule_reply : ℕ → Rule → Reply
  appeal_reply : String → Reply
  risk_reply : ℕ → ℕ → Reply

pub record ReportRequest : Type 0 where
  pub target_user_id : ℕ
  pub message_id : ℕ
  pub reason : String
  pub details : String

-- isModerator
abbrev pub is_id : ℕ → Option ℕ → Bool
is_id user none = false
is_id user (some id) = not (id == 0) && id == user

unfoldable pub is_moderator : List (Option ℕ) → ℕ → Bool
is_moderator moderators user = any (is_id user) moderators

unfoldable pub can_access_report : Identity → Report → Bool
can_access_report me report =
    me.channel_id == report.channel_id
    && (me.user_id == report.reporter_id || me.user_id == report.target_user_id)

-- "safety.report." + status
abbrev pub status_event : String → String
status_event status = "safety.report." ++ status

module _ (env : Env Call) (encode : Event Payload → String) (queries : Queries) (texts : Texts)
    (limits : Limits) (moderators : List (Option ℕ)) (print : ℕ → String) where
  -- `event, _ := NewEvent(…)` and `_ = PublishDurably(…)`
  unfoldable pub announce : String → String → Payload → Action Call Error (Unit {0})
  unfolding new_event publish_durably
  announce event_type aggregate payload = ignore (do
    event ← new_event env outbox unavailable event_type "safety-service" aggregate payload
    publish_durably env outbox unavailable encode "safety" "nexuschat.safety.events.v1" event)

  unfoldable pub report_stored : Report → Result Error (Unit {0}) → Action Call Error Reply
  unfolding call announce
  report_stored report (err e) = pure (refused 500 "create report failed")
  report_stored report (ok _) = do
    ignore {E = Error} (call env unavailable (insert_report_by_status report))
    announce "safety.report.created" report.id (reported report)
    pure (report_reply 201 report)

  unfoldable pub store_report : Report → Action Call Error Reply
  unfolding call report_stored
  store_report report = do
    r ← attempt {E = Error} (call env unavailable (insert_report_by_id report))
    report_stored report r

  unfoldable pub report_of : Identity → ReportRequest → Action Call Error Report
  unfolding now new_uuid
  report_of me request = do
    t ← now env
    id ← new_uuid env
    pure (record {
      id = id;
      reporter_id = me.user_id;
      target_user_id = request.target_user_id;
      channel_id = me.channel_id;
      message_id = request.message_id;
      reason = request.reason;
      details = request.details;
      status = "open";
      created_at = t;
      updated_at = t;
    })

  -- createReport
  unfoldable pub create_report : Identity → Option ReportRequest → Action Call Error Reply
  unfolding report_of store_report
  create_report me none = pure (refused 400 "invalid report")
  create_report me (some request) =
      if request.target_user_id == 0 || is_blank request.reason
      then pure (refused 400 "invalid report")
      else (report_of me request >>= store_report)

  abbrev pub report_answer : Identity → Option Report → Reply
  report_answer me none = refused 404 "report not found"
  report_answer me (some report) =
      if not (is_moderator moderators me.user_id) && not (can_access_report me report)
      then refused 403 "report access denied"
      else report_reply 200 report

  -- getReport
  unfoldable pub get_report : Identity → String → Action Call Error Reply
  get_report me id w = (ok (report_answer me (queries.report w.calls id)), w)

  abbrev pub is_report_status : String → Bool
  is_report_status s = str_eq s "reviewing" || str_eq s "resolved" || str_eq s "rejected"

  unfoldable pub restate : String → Option Report → Action Call Error Reply
  unfolding now call announce
  restate status none = pure (refused 404 "report not found")
  restate status (some old) = do
    t ← now env
    let report = record old { status = status; updated_at = t }
    ignore {E = Error} (call env unavailable (update_report_status report.id report.status t))
    announce (status_event status) report.id (reported report)
    pure (report_reply 200 report)

  unfoldable pub update_report_checked : String → String → Action Call Error Reply
  unfolding restate
  update_report_checked id status w = restate status (queries.report w.calls id) w

  unfoldable pub update_report_bound : String → Option String → Action Call Error Reply
  unfolding update_report_checked
  update_report_bound id none = pure (refused 400 "invalid status")
  update_report_bound id (some status) =
      if is_report_status status
      then update_report_checked id status
      else pure (refused 400 "invalid status")

  -- `if !s.requireModerator(c) { return }`
  abbrev pub as_moderator : Identity → Action Call Error Reply → Action Call Error Reply
  as_moderator me m =
      if is_moderator moderators me.user_id
      then m
      else pure (refused 403 "moderator permission required")

  -- updateReport
  unfoldable pub update_report : Identity → String → Option String → Action Call Error Reply
  unfolding update_report_bound
  update_report me id status = as_moderator me (update_report_bound id status)

  abbrev pub appeal_stored : String → Result Error (Unit {0}) → Reply
  appeal_stored id (ok _) = appeal_reply id
  appeal_stored id (err e) = refused 500 "create appeal failed"

  unfoldable pub store_appeal : Identity → String → String → Action Call Error Reply
  unfolding now new_uuid call
  store_appeal me report_id reason = do
    id ← new_uuid env
    t ← now env
    r ←
        attempt {E = Error}
          (call env unavailable (insert_appeal report_id t id me.user_id reason "open"))
    pure (appeal_stored id r)

  unfoldable pub appeal_bound : Identity → String → Option String → Action Call Error Reply
  unfolding store_appeal
  appeal_bound me report_id none = pure (refused 400 "reason is required")
  appeal_bound me report_id (some reason) =
      if is_blank reason
      then pure (refused 400 "reason is required")
      else store_appeal me report_id reason

  abbrev pub may_appeal : Identity → Report → Bool
  may_appeal me report = me.user_id == report.target_user_id && me.channel_id == report.channel_id

  unfoldable pub appeal_found :
      Identity → String → Option String → Option Report → Action Call Error Reply
  unfolding appeal_bound
  appeal_found me id reason none = pure (refused 404 "report not found")
  appeal_found me id reason (some report) =
      if may_appeal me report
      then appeal_bound me id reason
      else pure (refused 403 "appeal access denied")

  -- createAppeal
  unfoldable pub create_appeal : Identity → String → Option String → Action Call Error Reply
  unfolding appeal_found
  create_appeal me id reason w = appeal_found me id reason (queries.report w.calls id) w

  unfoldable pub block_stored : ℕ → ℕ → Result Error (Unit {0}) → Action Call Error Reply
  unfolding call announce
  block_stored user other (err e) = pure (refused 500 "block failed")
  block_stored user other (ok _) = do
    ignore {E = Error} (call env unavailable (add_block user other))
    announce "safety.user.blocked" (print user) (blocked user other)
    pure no_content

  unfoldable pub store_block : ℕ → ℕ → Action Call Error Reply
  unfolding now call block_stored
  store_block user other = do
    t ← now env
    r ← attempt {E = Error} (call env unavailable (insert_block user other t))
    block_stored user other r

  -- createBlock
  unfoldable pub create_block : Identity → Option ℕ → Action Call Error Reply
  unfolding store_block
  create_block me none = pure (refused 400 "invalid user")
  create_block me (some other) =
      if other == 0 || other == me.user_id
      then pure (refused 400 "invalid user")
      else store_block me.user_id other

  -- deleteBlock; the user is `none` where the path holds no number
  unfoldable pub delete_block : Identity → Option ℕ → Action Call Error Reply
  unfolding call
  delete_block me none = pure (refused 400 "invalid user")
  delete_block me (some other) = do
    ignore {E = Error} (call env unavailable (erase_block me.user_id other))
    ignore {E = Error} (call env unavailable (drop_block me.user_id other))
    pure no_content

  abbrev pub is_rule : Rule → Bool
  is_rule rule =
      not (str_eq rule.name "" || str_eq rule.pattern "" || ltb rule.score 1 || ltb 100 rule.score)

  abbrev pub rule_stored : ℕ → Rule → String → Result Error (Unit {0}) → Reply
  rule_stored code rule failure (ok _) = rule_reply code rule
  rule_stored code rule failure (err e) = refused 500 failure

  -- the checks that createRule and updateRule share
  abbrev pub with_rule : (Rule → Action Call Error Reply) → Option Rule → Action Call Error Reply
  with_rule store none = pure (refused 400 "invalid rule")
  with_rule store (some rule) =
      if is_rule rule
      then (if texts.compiles rule.pattern then store rule else pure (refused 400 "invalid regex"))
      else pure (refused 400 "invalid rule")

  unfoldable pub store_rule : Rule → Action Call Error Reply
  unfolding now new_uuid call
  store_rule rule = do
    id ← new_uuid env
    t ← now env
    u ← now env
    let rule = record rule { id = id; created_at = t; updated_at = u }
    r ← attempt {E = Error} (call env unavailable (insert_rule rule))
    pure (rule_stored 201 rule "create rule failed" r)

  -- createRule
  unfoldable pub create_rule : Identity → Option Rule → Action Call Error Reply
  unfolding store_rule
  create_rule me rule = as_moderator me (with_rule store_rule rule)

  unfoldable pub rewrite_rule : String → Rule → Action Call Error Reply
  unfolding now call
  rewrite_rule id rule = do
    t ← now env
    let rule = record rule { id = id; updated_at = t }
    r ← attempt {E = Error} (call env unavailable (change_rule rule))
    pure (rule_stored 200 rule "update rule failed" r)

  -- updateRule
  unfoldable pub update_rule : Identity → String → Option Rule → Action Call Error Reply
  unfolding rewrite_rule
  update_rule me id rule = as_moderator me (with_rule (rewrite_rule id) rule)

  unfoldable pub erase_rule_now : String → Action Call Error Reply
  unfolding call
  erase_rule_now id = do ignore {E = Error} (call env unavailable (erase_rule id)); pure no_content

  -- deleteRule
  unfoldable pub delete_rule : Identity → String → Action Call Error Reply
  unfolding erase_rule_now
  delete_rule me id = as_moderator me (erase_rule_now id)

  -- getRisk
  unfoldable pub get_risk : Identity → Option ℕ → Action Call Error Reply
  get_risk me user w =
      as_moderator me
        (λ w. (
          ok (elim user [
            | none ↦ refused 400 "invalid user"
            | some id ↦ risk_reply id (queries.risk w.calls id)
          ]),
          w,
        ))
        w

  -- isBlocked
  unfoldable pub is_blocked : History Call → ℕ → ℕ → Bool
  is_blocked h a b = queries.block_row h a b || queries.block_row h b a

  abbrev pub is_candidate : History Call → ℕ → ℕ → Bool
  is_candidate h user id =
      not (id == 0)
      && not (id == user)
      && not (is_blocked h user id)
      && ltb (queries.risk h id) limits.block_score

  -- BatchFilterCandidates, over the numbers of the request (0 where a part is no number)
  unfoldable pub filter_candidates : History Call → ℕ → List ℕ → List ℕ
  unfolding is_blocked
  filter_candidates h user [] = []
  filter_candidates h user (id ∷ ids) =
      let rest = filter_candidates h user ids in if is_candidate h user id then id ∷ rest else rest
