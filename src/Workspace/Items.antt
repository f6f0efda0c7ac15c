-- ===== src/Workspace/Items.antt =====
-- The item handlers of pkg/workspace/service.go.
pub mod Ownership
pub mod Access
use nexus_chat.Base.{
  ℕ, String, Bool, true, false, not, ◌&&◌, ◌||◌, List, [], ◌∷◌, Option, none, some, ◌==◌, str_eq,
  is_empty, is_blank, if◌then◌else◌,
}
use nexus_chat.Effects.{
  Result, ok, err, World, Env, History, Action, ◌>>=◌, ◌>>◌, pure, fail, ignore, attempt, refuse_if,
  call, now, new_uuid,
}
use nexus_chat.Realtime.Outbox.{Event, OutboxCall, new_event, publish_durably}
use nexus_chat.Workspace.{
  Item, Identity, Call, insert_by_channel, insert_by_id, delete_by_id, delete_by_channel,
  cache_item, uncache_item, outbox, broadcast, Error, bad_kind, unavailable, Answer, row, not_found,
  failed, Queries, Body, nothing, message, item_body, Response, respond, or_default,
}

abbrev pub is_kind : String → Bool
is_kind k = str_eq k "task" || str_eq k "note" || str_eq k "bookmark"

abbrev pub error_text : Error → String
error_text bad_kind = "kind must be task, note or bookmark"
error_text _ = "unavailable"

abbrev pub with_defaults : Item → Item
with_defaults i = record i {
  status = or_default i.status "todo";
  priority = or_default i.priority "normal";
}

module _ (env : Env Call) (encode : Event Item → String) (queries : Queries) where
  -- `if item.ID == "" { item.ID = uuid.NewString(); item.CreatedAt = time.Now().UTC() }`
  unfoldable pub identify : Bool → Item → Action Call Error Item
  unfolding now new_uuid
  identify true item = do
    id ← new_uuid env
    t ← now env
    pure (record item { id = id; created_at = t })
  identify false item = pure item

  abbrev pub event_type_of : Item → String
  event_type_of i =
      if i.created_at == i.updated_at then "workspace.item.created" else "workspace.item.updated"

  abbrev pub events_topic : String
  events_topic = "nexuschat.workspace.events.v1"

  -- the end of saveItem, once the event is made
  unfoldable pub announce_saved : Item → Event Item → Action Call Error (Unit {0})
  unfolding call publish_durably
  announce_saved item event = do
    publish_durably env outbox unavailable encode "workspace" events_topic event
    ignore {E = Error} (call env unavailable (broadcast item.channel_id (event_type_of item) item))

  -- the writes of saveItem
  unfoldable pub store_item : Item → Action Call Error (Unit {0})
  unfolding call new_event announce_saved
  store_item item = do
    call env unavailable (insert_by_channel item)
    ignore {E = Error} (call env unavailable (insert_by_id item))
    ignore {E = Error} (call env unavailable (cache_item item))
    event ← new_event env outbox unavailable (event_type_of item) "workspace-service" item.id item
    announce_saved item event

  unfoldable pub stamp_item : Item → Action Call Error (Unit {0})
  unfolding now store_item
  stamp_item item = do t ← now env; store_item (record item { updated_at = t })

  -- saveItem: the item is passed by value, so the caller keeps its own copy
  unfoldable pub save_item : Item → Action Call Error (Unit {0})
  unfolding identify stamp_item
  save_item item = do
    let item = with_defaults item
    refuse_if (not (is_kind item.kind)) bad_kind
    item ← identify (str_eq item.id "") item
    stamp_item item

  -- getItem, as its callers read it: the item, or an error
  unfoldable pub get_item : String → History Call → Option Item
  get_item id h = elim (queries.item_by_id h id) [
    | row item ↦ some item
    | not_found ↦ none
    | failed ↦ none
  ]

  -- `err != nil || item.ChannelID != identity.ChannelID || item.OwnerID != identity.UserID`, negated
  abbrev pub owned : Identity → Item → Bool
  owned me item = item.channel_id == me.channel_id && item.owner_id == me.user_id

  unfoldable pub check_owned : Identity → Option Item → Option Item
  check_owned me none = none
  check_owned me (some item) = if owned me item then some item else none

  unfoldable pub owned_item : Identity → String → History Call → Option Item
  unfolding get_item check_owned
  owned_item me id h = check_owned me (get_item id h)

  -- the reply to `err := s.saveItem(…)`
  abbrev pub saved : Response → (Error → Response) → Result Error (Unit {0}) → Response
  saved done refused (ok _) = done
  saved done refused (err e) = refused e

  unfoldable pub create_identified : Item → Action Call Error Response
  unfolding save_item
  create_identified item = do
    r ← attempt (save_item item)
    pure (saved (respond 201 (item_body item)) (λ e. respond 400 (message (error_text e))) r)

  unfoldable pub create_checked : Identity → Item → Action Call Error Response
  unfolding identify create_identified
  create_checked me item = do
    item ←
        identify (str_eq item.id "")
          (record item { channel_id = me.channel_id; owner_id = me.user_id })
    create_identified item

  -- createItem
  unfoldable pub create_item : Identity → Option Item → Action Call Error Response
  unfolding create_checked
  create_item me none = pure (respond 400 (message "title is required"))
  create_item me (some item) =
      if is_blank item.title
      then pure (respond 400 (message "title is required"))
      else create_checked me item

  -- getItemAPI
  unfoldable pub get_item_api : Identity → String → Action Call Error Response
  unfolding get_item
  get_item_api me id w = (
    ok (elim (get_item id w.calls) [
      | none ↦ respond 404 (message "item not found")
      | some item ↦
          if item.channel_id == me.channel_id
          then respond 200 (item_body item)
          else respond 404 (message "item not found")
    ]),
    w,
  )

  abbrev pub or_old {ℓ} : {A : Type ℓ} → List A → List A → List A
  or_old [] old = old
  or_old (x ∷ xs) old = x ∷ xs

  -- the snapshot that updateItem saves
  unfoldable pub merge : Item → Item → Item
  merge item patch = record patch {
    id = item.id;
    channel_id = item.channel_id;
    owner_id = item.owner_id;
    created_at = item.created_at;
    kind = or_default patch.kind item.kind;
    title = or_default patch.title item.title;
    content = or_default patch.content item.content;
    status = or_default patch.status item.status;
    priority = or_default patch.priority item.priority;
    assignees = or_old patch.assignees item.assignees;
    tags = or_old patch.tags item.tags;
  }

  unfoldable pub update_found : Option Item → Option Item → Action Call Error Response
  unfolding merge save_item
  update_found none patch = pure (respond 404 (message "item not found"))
  update_found (some item) none = pure (respond 400 (message "invalid item"))
  update_found (some item) (some patch) = do
    r ← attempt (save_item (merge item patch))
    pure (
        saved (respond 200 (item_body (merge item patch)))
          (λ e. respond 400 (message (error_text e))) r)

  -- updateItem
  unfoldable pub update_item : Identity → String → Option Item → Action Call Error Response
  unfolding owned_item update_found
  update_item me id patch w = update_found (owned_item me id w.calls) patch w

  -- the end of deleteItem, once the event is made
  unfoldable pub announce_deleted : Item → Event Item → Action Call Error Response
  unfolding call publish_durably
  announce_deleted item event = do
    ignore {E = Error}
        (publish_durably env outbox unavailable encode "workspace" events_topic event)
    ignore {E = Error}
        (call env unavailable (broadcast item.channel_id "workspace.item.deleted" item))
    pure (respond 204 nothing)

  unfoldable pub delete_found : Option Item → Action Call Error Response
  unfolding call new_event announce_deleted
  delete_found none = pure (respond 404 nothing)
  delete_found (some item) = do
    ignore {E = Error} (call env unavailable (delete_by_id item.id))
    ignore {E = Error}
        (call env unavailable (delete_by_channel item.channel_id item.updated_at item.id))
    ignore {E = Error} (call env unavailable (uncache_item item.id))
    event ←
        new_event env outbox unavailable "workspace.item.deleted" "workspace-service" item.id item
    announce_deleted item event

  -- deleteItem
  unfoldable pub delete_item : Identity → String → Action Call Error Response
  unfolding owned_item delete_found
  delete_item me id w = delete_found (owned_item me id w.calls) w

  abbrev pub is_status : String → Bool
  is_status s = str_eq s "todo" || str_eq s "in_progress" || str_eq s "done" || str_eq s "archived"

  -- the end of updateStatus and updateAssignees
  unfoldable pub resave : String → (Item → Item) → Option Item → Action Call Error Response
  unfolding save_item
  resave failure change none = pure (respond 404 nothing)
  resave failure change (some item) = do
    r ← attempt (save_item (change item))
    pure (saved (respond 200 (item_body (change item))) (λ e. respond 500 (message failure)) r)

  -- updateStatus
  unfoldable pub update_status : Identity → String → Option String → Action Call Error Response
  unfolding owned_item resave
  update_status me id none = pure (respond 400 (message "invalid status"))
  update_status me id (some status) =
      if is_status status
      then (λ w.
          resave "update status failed" (λ item. record item { status = status })
            (owned_item me id w.calls) w)
      else pure (respond 400 (message "invalid status"))

  -- updateAssignees
  unfoldable pub update_assignees : Identity → String → Option (List ℕ) → Action Call Error Response
  unfolding owned_item resave
  update_assignees me id none w = (ok (respond 400 (message "invalid assignees")), w)
  update_assignees me id (some assignees) w =
      resave "update assignees failed" (λ item. record item { assignees = assignees })
        (owned_item me id w.calls) w
