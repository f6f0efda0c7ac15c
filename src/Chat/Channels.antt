-- ===== src/Chat/Channels.antt =====
-- Channels of two users: CreateChannel, CreateDirectChannel and the tickets of ChannelServiceImpl in
-- pkg/chat/service.go. Where no safety service is configured `blocked` answers no.
pub mod Rollback
use nexus_chat.Base.{
  ℕ, String, Bool, true, false, not, ◌||◌, List, [], ◌∷◌, ◌==◌, is_blank, if◌then◌else◌,
}
use nexus_chat.Effects.{
  Result, ok, err, World, Env, History, Action, ◌>>=◌, ◌>>◌, pure, fail, ask, ignore, attempt,
  refuse_if, call,
}
use nexus_chat.Chat.{
  Found, value, missing, failed, Channel, Call, next_id, create_channel, delete_channel, set_kind,
  reserve_direct, add_user, invite, issue_ticket, Error, unavailable, not_found, requires_friend,
  direct_exists, no_channel_or_user, Queries,
}
use nexus_chat.Chat.Messages.{answered}

module _ (env : Env Call) (queries : Queries) where
  -- CreateChannel
  unfoldable pub create_random : Action Call Error Channel
  unfolding call
  create_random = do
    call env unavailable next_id
    id ← ask (λ h. ok (queries.fresh_id h))
    call env unavailable (create_channel id)
    channel ← ask (λ h. ok (queries.new_channel h id))
    call env unavailable (set_kind id "random")
    pure channel

  -- IssueWebSocketTicket
  unfoldable pub issue : ℕ → ℕ → String → Action Call Error String
  unfolding call
  issue user channel token = do
    refuse_if (user == 0 || channel == 0 || is_blank token) no_channel_or_user
    found ← ask (λ h. answered (queries.is_member h channel user))
    refuse_if (not found) no_channel_or_user
    call env unavailable (issue_ticket user channel token)
    ask (λ h. ok (queries.ticket h))

  -- the checks of CreateDirectChannel
  unfoldable pub check_direct : ℕ → ℕ → Action Call Error (Unit {0})
  check_direct user target = do
    refuse_if (user == 0 || target == 0 || user == target) no_channel_or_user
    known ← ask (λ h. answered (queries.user_exists h target))
    blocked ← ask (λ h. answered (queries.blocked h user target))
    refuse_if blocked requires_friend
    friends ← ask (λ h. answered (queries.friends h user target))
    refuse_if (not friends) requires_friend

  unfoldable pub reopen : ℕ → ℕ → Channel → Action Call Error Channel
  unfolding call
  reopen user target channel = do
    call env unavailable (set_kind channel.id "direct")
    call env unavailable (invite channel.id user target)
    pure channel

  -- what CreateDirectChannel does after the reservation
  unfoldable pub fill : ℕ → ℕ → Channel → Action Call Error (Unit {0})
  unfolding call
  fill user target channel = do
    call env unavailable (add_user channel.id user)
    call env unavailable (add_user channel.id target)
    call env unavailable (set_kind channel.id "direct")
    call env unavailable (invite channel.id user target)

  -- the deferred function: a channel that was reserved and not filled is deleted
  unfoldable pub commit : Channel → Result Error (Unit {0}) → Action Call Error Channel
  unfolding call
  commit channel (ok _) = pure channel
  commit channel (err e) = do
    ignore {E = Error} (call env unavailable (delete_channel channel.id))
    fail e

  -- another request made the channel in the meantime
  unfoldable pub yield_to : ℕ → ℕ → Channel → Action Call Error Channel
  unfolding call
  yield_to user target channel = do
    ignore {E = Error} (call env unavailable (delete_channel channel.id))
    existing ← ask (λ h. answered (queries.direct_channel h user target))
    call env unavailable (invite existing.id user target)
    pure existing

  unfoldable pub after_conflict : ℕ → ℕ → Channel → Bool → Action Call Error Channel
  unfolding yield_to
  after_conflict user target channel true = yield_to user target channel
  after_conflict user target channel false = fail unavailable

  unfoldable pub after_reservation :
      ℕ → ℕ → Channel → Result Error (Unit {0}) → Action Call Error Channel
  unfolding fill commit after_conflict
  after_reservation user target channel (ok _) = do
    r ← attempt (fill user target channel)
    commit channel r
  after_reservation user target channel (err e) = do
    exists ← ask {E = Error} (λ h. ok (queries.already_reserved h user target))
    after_conflict user target channel exists

  unfoldable pub reserve : ℕ → ℕ → Channel → Action Call Error Channel
  unfolding call after_reservation
  reserve user target channel = do
    r ← attempt {E = Error} (call env unavailable (reserve_direct channel.id user target))
    after_reservation user target channel r

  unfoldable pub open_direct : ℕ → ℕ → Found Channel → Action Call Error Channel
  unfolding reopen create_random reserve
  open_direct user target (value channel) = reopen user target channel
  open_direct user target missing = create_random >>= reserve user target
  open_direct user target failed = fail unavailable

  -- CreateDirectChannel
  unfoldable pub create_direct : ℕ → ℕ → Action Call Error Channel
  unfolding check_direct open_direct
  create_direct user target = do
    check_direct user target
    existing ← ask {E = Error} (λ h. ok (queries.direct_channel h user target))
    open_direct user target existing
