-- ===== src/Chat/Messages.antt =====
-- MessageServiceImpl of pkg/chat/service.go. `join` is strings.Join with "|" after the numbers are
-- printed, and `warning` puts the text of a warning in front of a payload.
pub mod Changes
use nexus_chat.Base.{
  ℕ, ◌/◌, String, Bool, true, false, not, List, [], ◌∷◌, Option, some, none, ◌==◌, str_eq, any,
  if◌then◌else◌,
}
use nexus_chat.Effects.{
  Result, ok, err, World, Env, History, Action, ◌>>=◌, ◌>>◌, pure, fail, ask, refuse_if, call, now,
}
use nexus_chat.Chat.{
  Found, value, missing, failed, ReplyPreview, EventKind, text, action, file, edit, delete,
  reaction, pin, Message, Call, insert_message, publish_message, mark_read, edit_message,
  delete_message, add_reaction, remove_reaction, pin_message, unpin_message, next_id, Error,
  unavailable, not_found, unauthorized, requires_friend, not_owner, already_deleted,
  blocked_message, Moderation, no_service, allowed, warned, refused, unreachable, Queries,
}

-- `if err != nil { return err }` after a read
abbrev pub answered : {A : Type 0} → Found A → Result Error A
answered (value a) = ok a
answered missing = err not_found
answered failed = err unavailable

abbrev pub preview_of : Message → ReplyPreview
preview_of m = record { message_id = m.message_id; user_id = m.user_id; payload = m.payload }

unfoldable pub peers_of : ℕ → List ℕ → List ℕ
peers_of user [] = []
peers_of user (m ∷ ms) =
    let rest = peers_of user ms in if m == user then rest else if m == 0 then rest else m ∷ rest

abbrev pub is_direct : Found String → Bool
is_direct (value k) = str_eq k "direct"
is_direct _ = false

module _ (env : Env Call) (queries : Queries) (join : List String → String) (print : ℕ → String)
    (warning : String → String) where
  unfoldable pub check_pair : ℕ → List ℕ → Action Call Error (Unit {0})
  check_pair user (peer ∷ []) = do
    friends ← ask (λ h. answered (queries.friends h user peer))
    refuse_if (not friends) requires_friend
    blocked ← ask (λ h. answered (queries.blocked h user peer))
    refuse_if blocked requires_friend
  check_pair user _ = fail unauthorized

  unfoldable pub check_kind : ℕ → List ℕ → Found String → Action Call Error (Unit {0})
  unfolding check_pair
  check_kind user members k =
      if is_direct k then check_pair user (peers_of user members) else pure tt

  -- AuthorizeInteraction
  unfoldable pub authorize_interaction : ℕ → ℕ → Action Call Error (Unit {0})
  unfolding check_kind
  authorize_interaction channel user = do
    members ← ask (λ h. answered (queries.members h channel))
    refuse_if (not (any (λ m. m == user) members)) unauthorized
    k ← ask {E = Error} (λ h. ok (queries.kind h channel))
    check_kind user members k

  -- newMessage
  unfoldable pub new_message : EventKind → ℕ → ℕ → String → Action Call Error Message
  unfolding call now
  new_message event channel user payload = do
    call env unavailable next_id
    id ← ask (λ h. ok (queries.fresh_id h))
    t ← now env
    pure (record {
      message_id = id;
      event = event;
      channel_id = channel;
      user_id = user;
      payload = payload;
      time = t / 1000000;
      edited_at = 0;
      deleted_for_all = false;
      deleted_by = 0;
      reactions = [];
      is_pinned = false;
      parent_id = 0;
      reply_preview = none;
    })

  abbrev pub insert : Message → Action Call Error (Unit {0})
  insert m = call env unavailable (insert_message m)

  -- PublishMessage
  abbrev pub publish : Message → Action Call Error (Unit {0})
  publish m = call env unavailable (publish_message m)

  unfoldable pub moderated : Message → Moderation → Action Call Error Message
  moderated m no_service = pure m
  moderated m allowed = pure m
  moderated m warned = pure (record m { payload = warning m.payload })
  moderated m refused = fail blocked_message
  moderated m unreachable = fail unavailable

  abbrev pub with_preview : Message → Found Message → Message
  with_preview m (value parent) = record m { reply_preview = some (preview_of parent) }
  with_preview m _ = m

  -- the reply preview, where there is a parent
  unfoldable pub preview : Message → History Call → Message
  preview m h =
      if m.parent_id == 0 then m else with_preview m (queries.message h m.channel_id m.parent_id)

  unfoldable pub send_text : Message → Action Call Error (Unit {0})
  unfolding call
  send_text m = do m ← ask (λ h. ok (preview m h)); insert m; publish m

  -- BroadcastTextMessage, once the message is made
  unfoldable pub broadcast_made : Message → Action Call Error (Unit {0})
  unfolding moderated send_text
  broadcast_made m = do
    answer ← ask {E = Error} (λ h. ok (queries.moderation h m))
    moderated m answer >>= send_text

  -- BroadcastTextMessage
  unfoldable pub broadcast_text : ℕ → ℕ → String → ℕ → Action Call Error (Unit {0})
  unfolding new_message broadcast_made
  broadcast_text channel user payload parent = do
    m ← new_message text channel user payload
    broadcast_made (record m { parent_id = parent })

  -- BroadcastActionMessage
  unfoldable pub broadcast_action : ℕ → ℕ → String → Action Call Error (Unit {0})
  unfolding new_message call
  broadcast_action channel user what = new_message action channel user what >>= publish

  abbrev pub is_single : List ℕ → Bool
  is_single (u ∷ []) = true
  is_single _ = false

  -- BroadcastConnectMessage
  unfoldable pub broadcast_connect : ℕ → ℕ → Action Call Error (Unit {0})
  unfolding broadcast_action
  broadcast_connect channel user = do
    online ← ask (λ h. answered (queries.online h channel))
    broadcast_action channel user (if is_single online then "waiting" else "joined")

  unfoldable pub store_and_publish : Message → Action Call Error (Unit {0})
  unfolding call
  store_and_publish m = do insert m; publish m

  -- BroadcastFileMessage
  unfoldable pub broadcast_file : ℕ → ℕ → String → Action Call Error (Unit {0})
  unfolding new_message store_and_publish
  broadcast_file channel user payload = new_message file channel user payload >>= store_and_publish

  -- MarkMessageRead
  unfoldable pub mark_message_read : ℕ → ℕ → ℕ → Action Call Error (Unit {0})
  unfolding call
  mark_message_read channel user id = call env unavailable (mark_read channel user id)

  -- `if msg.UserID != userID …; if msg.DeletedForAll …`
  unfoldable pub check_own : ℕ → Message → Action Call Error (Unit {0})
  check_own user m = do
    refuse_if (not (m.user_id == user)) not_owner
    refuse_if m.deleted_for_all already_deleted

  unfoldable pub edit_found : ℕ → ℕ → ℕ → String → Action Call Error (Unit {0})
  unfolding now call new_message
  edit_found channel user id body = do
    t ← now env
    call env unavailable (edit_message channel id body (t / 1000000))
    e ← new_message edit channel user (join (print id ∷ body ∷ []))
    publish (record e { time = t / 1000000; edited_at = t / 1000000 })

  unfoldable pub edit_checked :
      ℕ → ℕ → ℕ → String → Result Error Message → Action Call Error (Unit {0})
  unfolding check_own edit_found
  edit_checked channel user id body (err e) = fail e
  edit_checked channel user id body (ok m) = check_own user m >> edit_found channel user id body

  -- EditMessage
  unfoldable pub edit_text : ℕ → ℕ → ℕ → String → Action Call Error (Unit {0})
  unfolding edit_checked
  edit_text channel user id body w =
      edit_checked channel user id body (answered (queries.message w.calls channel id)) w

  unfoldable pub delete_found : ℕ → ℕ → ℕ → Action Call Error (Unit {0})
  unfolding call new_message
  delete_found channel user id = do
    call env unavailable (delete_message channel id user)
    e ← new_message delete channel user (print id)
    publish (record e { deleted_for_all = true; deleted_by = user })

  unfoldable pub delete_checked : ℕ → ℕ → ℕ → Result Error Message → Action Call Error (Unit {0})
  unfolding check_own delete_found
  delete_checked channel user id (err e) = fail e
  delete_checked channel user id (ok m) = check_own user m >> delete_found channel user id

  -- DeleteMessageForAll
  unfoldable pub delete_for_all : ℕ → ℕ → ℕ → Action Call Error (Unit {0})
  unfolding delete_checked
  delete_for_all channel user id w =
      delete_checked channel user id (answered (queries.message w.calls channel id)) w

  -- a change, then the event that tells of it
  unfoldable pub change_and_tell : Call → EventKind → ℕ → ℕ → String → Action Call Error (Unit {0})
  unfolding call new_message
  change_and_tell c event channel user payload = do
    call env unavailable c
    e ← new_message event channel user payload
    publish e

  -- AddReaction, RemoveReaction, PinMessage, UnpinMessage
  unfoldable pub react : ℕ → ℕ → ℕ → String → Action Call Error (Unit {0})
  unfolding change_and_tell
  react channel user id emoji =
      change_and_tell (add_reaction channel id user emoji) reaction channel user
        (join (print id ∷ emoji ∷ "add" ∷ []))

  unfoldable pub unreact : ℕ → ℕ → ℕ → String → Action Call Error (Unit {0})
  unfolding change_and_tell
  unreact channel user id emoji =
      change_and_tell (remove_reaction channel id user emoji) reaction channel user
        (join (print id ∷ emoji ∷ "remove" ∷ []))

  unfoldable pub pin_to : ℕ → ℕ → ℕ → Action Call Error (Unit {0})
  unfolding change_and_tell
  pin_to channel user id =
      change_and_tell (pin_message channel id user) pin channel user (join (print id ∷ "pin" ∷ []))

  unfoldable pub unpin : ℕ → ℕ → Action Call Error (Unit {0})
  unfolding change_and_tell
  unpin channel id =
      change_and_tell (unpin_message channel id) pin channel 0 (join (print id ∷ "unpin" ∷ []))
