-- ===== src/Safety.antt =====
-- pkg/safety/service.go: moderation of messages, reports, blocks and rules.
--
-- The statements against Cassandra and Redis and the events are the constructors of `Call`;
-- `Queries` holds what reads answer after the calls so far. `Texts` stands for the functions of the
-- Go packages strings and regexp that the code applies. A score is a number from 0 on.
pub mod Moderation
pub mod Handlers
use nexus_chat.Base.{ℕ, String, Bool, List, Option}
use nexus_chat.Effects.{History}
use nexus_chat.Realtime.Outbox.{OutboxCall}

pub record Decision : Type 0 where
  pub id : String
  pub channel_id : ℕ
  pub message_id : ℕ
  pub user_id : ℕ
  pub score : ℕ
  pub action : String
  pub reason : String
  pub created_at : ℕ

pub record Report : Type 0 where
  pub id : String
  pub reporter_id : ℕ
  pub target_user_id : ℕ
  pub channel_id : ℕ
  pub message_id : ℕ
  pub reason : String
  pub details : String
  pub status : String
  pub created_at : ℕ
  pub updated_at : ℕ

pub record Rule : Type 0 where
  pub id : String
  pub name : String
  pub pattern : String
  pub score : ℕ
  pub enabled : Bool
  pub created_at : ℕ
  pub updated_at : ℕ

-- the payload of an event
pub data Payload : Type 0 where
  decided : Decision → Payload
  reported : Report → Payload
  blocked : ℕ → ℕ → Payload

pub data Call : Type 0 where
  -- INCR and EXPIRE of safety:rate:user:window, SET of safety:mute:user
  count_rate : ℕ → ℕ → Call
  expire_rate : ℕ → ℕ → ℕ → Call
  mute : ℕ → ℕ → Call
  -- INCR and EXPIRE of safety:repeat:user:text
  count_repeat : ℕ → String → Call
  expire_repeat : ℕ → String → ℕ → Call
  insert_decision_by_channel : Decision → Call
  insert_decision_by_user : Decision → Call
  set_risk : ℕ → ℕ → Call
  outbox : OutboxCall Payload → Call
  insert_report_by_id : Report → Call
  insert_report_by_status : Report → Call
  update_report_status : String → String → ℕ → Call
  insert_appeal : String → ℕ → String → ℕ → String → String → Call
  insert_block : ℕ → ℕ → ℕ → Call
  add_block : ℕ → ℕ → Call
  erase_block : ℕ → ℕ → Call
  drop_block : ℕ → ℕ → Call
  insert_rule : Rule → Call
  change_rule : Rule → Call
  erase_rule : String → Call

pub record Queries : Type 0 where
  -- TTL of the mute key: an answer above 0
  pub muted : History Call → ℕ → Bool
  -- the value after an INCR
  pub rate : History Call → ℕ → ℕ → ℕ
  pub repeats : History Call → ℕ → String → ℕ
  pub rules : History Call → List Rule
  pub report : History Call → String → Option Report
  -- a row of safety_blocks_by_user is found
  pub block_row : History Call → ℕ → ℕ → Bool
  -- safety:risk:user, 0 where it is missing
  pub risk : History Call → ℕ → ℕ

pub record Texts : Type 0 where
  pub trim : String → String
  pub lower : String → String
  -- the fixed patterns
  pub is_scam : String → Bool
  pub is_toxic : String → Bool
  pub has_url : String → Bool
  -- regexp.MatchString; `none` is a pattern that does not compile
  pub matches : String → String → Option Bool
  pub compiles : String → Bool

-- config.Safety
pub record Limits : Type 0 where
  pub window_second : ℕ
  pub max_messages : ℕ
  pub mute_second : ℕ
  pub block_score : ℕ
  pub warn_score : ℕ

-- a failed call, or a panic of the code
pub data Error : Type 0 where
  unavailable panicked : Error
