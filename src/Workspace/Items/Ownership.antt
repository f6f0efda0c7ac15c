-- ===== src/Workspace/Items/Ownership.antt =====
-- Who can change an item of pkg/workspace/service.go, and where the writes go.
use nexus_chat.Base.{
  ℕ, String, ◌≡◌, refl, Bool, true, false, not, List, Option, none, some, arith, str_eq, ==_iff,
  is_blank,
}
use nexus_chat.Effects.{ok, World, Env, History, pure}
use nexus_chat.Effects.Facts.{
  Adds, Makes, Makes-bind, Makes-bind_ok, Makes-attempt, Makes-pure, Makes-call, Makes-now,
  Makes-ignore, Makes-refuse_if, Makes-if, makes_rules,
}
use nexus_chat.Realtime.Outbox.{
  new_event, publish_durably, Event, insert_event, publish, mark_published,
}
use nexus_chat.Realtime.Outbox.Writes.{Makes-new_event, payload-new_event, Makes-publish_durably}
use nexus_chat.Workspace.{
  Item, Identity, Call, Answer, row, not_found, failed, insert_by_channel, insert_by_id,
  delete_by_id, delete_by_channel, cache_item, uncache_item, outbox, broadcast, bad_kind,
  unavailable, Queries, nothing, message, respond, item_body,
}
use nexus_chat.Workspace.Items.{
  with_defaults, is_kind, identify, stamp_item, announce_saved, announce_deleted, create_identified,
  event_type_of, store_item, save_item, get_item, check_owned, owned_item, saved, error_text,
  create_checked, create_item, merge, update_found, update_item, delete_found, delete_item,
  is_status, resave, update_status, update_assignees,
}

-- The item is of the caller's channel and of the caller.
abbrev pub IsMine : Identity → Item → Type 0
IsMine me item = (item.channel_id ≡ me.channel_id) × (item.owner_id ≡ me.user_id)

-- The calls that a caller may cause: every row, cached copy, event and broadcast that carries an
-- item carries one of the caller's own, in the caller's channel, a row of the outbox has the text of
-- such an event, and a row or cached copy that is deleted has a removable id. The mark that an event
-- of the outbox is published carries no item.
abbrev pub InChannel : (Event Item → String) → (String → Type 0) → Identity → Call → Type 0
InChannel encode removable me (insert_by_channel item) = IsMine me item
InChannel encode removable me (insert_by_id item) = IsMine me item
InChannel encode removable me (cache_item item) = IsMine me item
InChannel encode removable me (delete_by_id id) = removable id
InChannel encode removable me (delete_by_channel channel t id) =
    (channel ≡ me.channel_id) × removable id
InChannel encode removable me (uncache_item id) = removable id
InChannel encode removable me (outbox (publish topic key event)) = IsMine me event.payload
InChannel encode removable me (outbox (insert_event s b r)) =
    (event : Event Item) × ((r.payload ≡ encode event) × IsMine me event.payload)
InChannel encode removable me (outbox (mark_published s b t id)) = Unit
InChannel encode removable me (broadcast channel type item) =
    (channel ≡ me.channel_id) × IsMine me item
InChannel encode removable me _ = ⊥

-- no id
abbrev pub NoId : String → Type 0
NoId id = ⊥

-- It is the id of the caller's own item that the table answered for the id of the request.
abbrev pub IsOwnRow : Queries → Identity → History Call → String → String → Type 0
IsOwnRow queries me h asked id =
    (item : Item) × ((queries.item_by_id h asked ≡ row item) × (IsMine me item × (item.id ≡ id)))

module _ (env : Env Call) (encode : Event Item → String) (queries : Queries) (me : Identity)
    (removable : String → Type 0) where
  identify-IsMine :
      (b : Bool) (item i : Item) (w : World Call)
      → IsMine me item
      → (identify env encode queries b item w).0 ≡ ok i
      → IsMine me i
  unfolding identify
  identify-IsMine true item i w m e = ground arith
  identify-IsMine false item i w m e = ground arith

  Makes-identify :
      (b : Bool) (item : Item)
      → Makes (InChannel encode removable me) (identify env encode queries b item)
  unfolding identify
  Makes-identify true item = search makes_rules
  Makes-identify false item = search makes_rules

  -- the event of an item of the caller carries that item
  event-IsMine :
      (t p i : String) (item : Item) (w : World Call) (event : Event Item)
      → IsMine me item
      → (new_event env outbox unavailable t p i item w).0 ≡ ok event
      → IsMine me event.payload
  event-IsMine t p i item w event m e =
      rw (payload-new_event env outbox unavailable t p i item w event e) m

  Makes-publish :
      (s t : String) (event : Event Item)
      → IsMine me event.payload
      → Makes
          (InChannel encode removable me)
          (publish_durably env outbox unavailable encode s t event)
  Makes-publish s t event m =
      Makes-publish_durably env outbox unavailable encode s t event (λ s b t. (event, (refl, m))) m
        (λ s b t. tt)

  announce_saved-InChannel :
      (item : Item) (event : Event Item)
      → IsMine me item
      → IsMine me event.payload
      → Makes (InChannel encode removable me) (announce_saved env encode queries item event)
  unfolding announce_saved
  announce_saved-InChannel item event m n = Makes-bind _ _ (Makes-publish _ _ event n) λ _.
      Makes-ignore _ (
        Makes-call env unavailable
          (broadcast item.channel_id (event_type_of env encode queries item) item) (m.0, m))

  store_item-InChannel :
      (item : Item)
      → IsMine me item
      → Makes (InChannel encode removable me) (store_item env encode queries item)
  unfolding store_item
  store_item-InChannel item m =
      Makes-bind _ _ (Makes-call env unavailable (insert_by_channel item) m) λ _.
        Makes-bind _ _ (Makes-ignore _ (Makes-call env unavailable (insert_by_id item) m)) λ _.
          Makes-bind _ _ (Makes-ignore _ (Makes-call env unavailable (cache_item item) m)) λ _.
            Makes-bind_ok _ (announce_saved env encode queries item)
              (Makes-new_event env outbox unavailable (event_type_of env encode queries item)
                "workspace-service" item.id item)
              λ event w e. announce_saved-InChannel item event m (
                event-IsMine (event_type_of env encode queries item) "workspace-service" item.id
                  item w event m e)

  stamp_item-InChannel :
      (item : Item)
      → IsMine me item
      → Makes (InChannel encode removable me) (stamp_item env encode queries item)
  unfolding stamp_item
  stamp_item-InChannel item m =
      Makes-bind _ _ (Makes-now env) λ t. store_item-InChannel (record item { updated_at = t }) m

  pub save_item-InChannel :
      (item : Item)
      → IsMine me item
      → Makes (InChannel encode removable me) (save_item env encode queries item)
  unfolding save_item
  save_item-InChannel item m =
      Makes-bind _ _ (Makes-refuse_if (not (is_kind (with_defaults item).kind)) bad_kind) λ _.
        Makes-bind_ok _ (stamp_item env encode queries)
          (Makes-identify (str_eq (with_defaults item).id "") (with_defaults item))
          λ i w e.
            stamp_item-InChannel i
              (identify-IsMine (str_eq (with_defaults item).id "") (with_defaults item) i w m e)

  check_owned-IsMine :
      (o : Option Item) (item : Item)
      → check_owned env encode queries me o ≡ some item
      → IsMine me item
  unfolding check_owned
  check_owned-IsMine none item e = cc
  check_owned-IsMine (some i) item e =
      ground (arith, ==_iff i.channel_id me.channel_id, ==_iff i.owner_id me.user_id)

  announce_deleted-InChannel :
      (item : Item) (event : Event Item)
      → IsMine me item
      → IsMine me event.payload
      → Makes (InChannel encode removable me) (announce_deleted env encode queries item event)
  unfolding announce_deleted
  announce_deleted-InChannel item event m n =
      Makes-bind _ _ (Makes-ignore _ (Makes-publish _ _ event n)) λ _.
        Makes-bind _ _
          (Makes-ignore _ (
            Makes-call env unavailable (broadcast item.channel_id "workspace.item.deleted" item)
              (m.0, m)))
          λ _. Makes-pure (respond 204 nothing)

  delete_found-InChannel :
      (o : Option Item)
      → ((item : Item) → o ≡ some item → IsMine me item × removable item.id)
      → Makes (InChannel encode removable me) (delete_found env encode queries o)
  unfolding delete_found
  delete_found-InChannel none m = Makes-pure _
  delete_found-InChannel (some item) m =
      let (mine, own) = m item refl in
      Makes-bind _ _ (Makes-ignore _ (Makes-call env unavailable (delete_by_id item.id) own)) λ _.
        Makes-bind _ _
          (Makes-ignore _ (
            Makes-call env unavailable (delete_by_channel item.channel_id item.updated_at item.id)
              (mine.0, own)))
          λ _.
            Makes-bind _ _ (Makes-ignore _ (Makes-call env unavailable (uncache_item item.id) own))
              λ _.
                Makes-bind_ok _ (announce_deleted env encode queries item)
                  (Makes-new_event env outbox unavailable "workspace.item.deleted"
                    "workspace-service" item.id item)
                  λ event w e. announce_deleted-InChannel item event mine (
                    event-IsMine "workspace.item.deleted" "workspace-service" item.id item w event
                      mine e)

  update_found-InChannel :
      (o patch : Option Item)
      → ((item : Item) → o ≡ some item → IsMine me item)
      → Makes (InChannel encode removable me) (update_found env encode queries o patch)
  unfolding update_found
  update_found-InChannel none patch m = record { at = λ w. Adds.same }
  update_found-InChannel (some item) none m = Makes-pure _
  update_found-InChannel (some item) (some patch) m =
      Makes-bind _ _
        (Makes-attempt _
          (save_item-InChannel (merge env encode queries item patch) (unfold merge in m item refl)))
        λ r. Makes-pure (
          saved env encode queries (respond 200 (item_body (merge env encode queries item patch)))
            (λ e. respond 400 (message (error_text e))) r)

  resave-InChannel :
      (failure : String) (change : Item → Item) (o : Option Item)
      → ((item : Item) → IsMine me item → IsMine me (change item))
      → ((item : Item) → o ≡ some item → IsMine me item)
      → Makes (InChannel encode removable me) (resave env encode queries failure change o)
  unfolding resave
  resave-InChannel failure change none k m = Makes-pure _
  resave-InChannel failure change (some item) k m =
      Makes-bind _ _ (Makes-attempt _ (save_item-InChannel (change item) (k item (m item refl))))
        λ r. Makes-pure (
          saved env encode queries (respond 200 (item_body (change item)))
            (λ e. respond 500 (message failure)) r)

  create_identified-InChannel :
      (item : Item)
      → IsMine me item
      → Makes (InChannel encode removable me) (create_identified env encode queries item)
  unfolding create_identified
  create_identified-InChannel item m =
      Makes-bind _ _ (Makes-attempt _ (save_item-InChannel item m)) λ r. Makes-pure (
        saved env encode queries (respond 201 (item_body item))
          (λ e. respond 400 (message (error_text e))) r)

  create_checked-InChannel :
      (item : Item)
      → Makes (InChannel encode removable me) (create_checked env encode queries me item)
  unfolding create_checked
  create_checked-InChannel item =
      let own = record item { channel_id = me.channel_id; owner_id = me.user_id } in
      let b = str_eq item.id "" in
      Makes-bind_ok _ (create_identified env encode queries) (Makes-identify b own)
        λ i w e. create_identified-InChannel i (identify-IsMine b own i w (refl, refl) e)

  create_item-InChannel :
      (item : Option Item)
      → Makes (InChannel encode removable me) (create_item env encode queries me item)
  unfolding create_item
  create_item-InChannel none = Makes-pure _
  create_item-InChannel (some item) =
      let refusal = respond 400 (message "title is required") in
      Makes-if (is_blank item.title) (pure refusal) (create_checked env encode queries me item)
        (λ _. Makes-pure refusal) (λ _. create_checked-InChannel item)

  owned_item-IsMine :
      (id : String) (h : History Call) (item : Item)
      → owned_item env encode queries me id h ≡ some item
      → IsMine me item
  unfolding owned_item
  owned_item-IsMine id h item e = check_owned-IsMine (get_item env encode queries id h) item e

  update_item-InChannel :
      (id : String) (patch : Option Item)
      → Makes (InChannel encode removable me) (update_item env encode queries me id patch)
  unfolding update_item
  update_item-InChannel id patch = record {
    at = λ w.
        (update_found-InChannel (owned_item env encode queries me id w.calls) patch
            (owned_item-IsMine id w.calls)).at
          w;
  }

  update_status-InChannel :
      (id : String) (status : Option String)
      → Makes (InChannel encode removable me) (update_status env encode queries me id status)
  unfolding update_status
  update_status-InChannel id none = Makes-pure _
  update_status-InChannel id (some status) =
      let refusal = respond 400 (message "invalid status") in
      let change : Item → Item = λ item. record item { status = status } in
      Makes-if (is_status env encode queries status)
        (λ w.
          resave env encode queries "update status failed" change
            (owned_item env encode queries me id w.calls) w)
        (pure refusal)
        (λ _. record {
          at = λ w.
              (resave-InChannel "update status failed" change
                  (owned_item env encode queries me id w.calls) (λ i m. m)
                  (owned_item-IsMine id w.calls)).at
                w;
        })
        (λ _. Makes-pure refusal)

  update_assignees-InChannel :
      (id : String) (assignees : Option (List ℕ))
      → Makes (InChannel encode removable me) (update_assignees env encode queries me id assignees)
  unfolding update_assignees
  update_assignees-InChannel id none = record { at = λ w. Adds.same }
  update_assignees-InChannel id (some assignees) = record {
    at = λ w.
        (resave-InChannel "update assignees failed" (λ item. record item { assignees = assignees })
            (owned_item env encode queries me id w.calls) (λ i m. m)
            (owned_item-IsMine id w.calls)).at
          w;
  }

module _ (env : Env Call) (encode : Event Item → String) (queries : Queries) (me : Identity) where
  get_item-row :
      (id : String) (h : History Call) (item : Item)
      → get_item env encode queries id h ≡ some item
      → queries.item_by_id h id ≡ row item
  unfolding get_item
  get_item-row id h item e = answer (queries.item_by_id h id) e
    where
      answer :
          (a : Answer Item)
          → elim a [ row i ↦ some i | not_found ↦ none | failed ↦ none ] ≡ some item
          → a ≡ row item
      answer (row i) e = cc
      answer not_found e = absurd cc
      answer failed e = absurd cc

  check_owned-some :
      (o : Option Item) (item : Item)
      → check_owned env encode queries me o ≡ some item
      → o ≡ some item
  unfolding check_owned
  check_owned-some none item e = absurd cc
  check_owned-some (some i) item e = ground arith

  owned_item-IsOwnRow :
      (id : String) (h : History Call) (item : Item)
      → owned_item env encode queries me id h ≡ some item
      → IsMine me item × IsOwnRow queries me h id item.id
  unfolding owned_item
  owned_item-IsOwnRow id h item e =
      let mine =
        check_owned-IsMine env encode queries me NoId (get_item env encode queries id h) item e in
      let found =
        get_item-row id h item (check_owned-some (get_item env encode queries id h) item e) in
      (mine, (item, (found, (mine, refl))))

  delete_item-InChannel :
      (id : String) (w : World Call)
      → Adds
          (InChannel encode (IsOwnRow queries me w.calls id) me)
          w.calls
          (delete_item env encode queries me id w).1.calls
  unfolding delete_item
  delete_item-InChannel id w =
      (delete_found-InChannel env encode queries me (IsOwnRow queries me w.calls id)
          (owned_item env encode queries me id w.calls) (owned_item-IsOwnRow id w.calls)).at
        w

  -- Whatever the request, what the handlers that create, update and delete items write is of the
  -- user and the channel of the caller's identity: no row, cached copy, event or broadcast of an item
  -- that they write has another channel or owner in it, and no row of the outbox the text of such an
  -- event. Creating an item, updating one and changing its status or assignees delete nothing, and
  -- a deletion deletes, by id, in the caller's channel and in the cache, only under the id of the
  -- row that the table answers for the id of the request, which is of the caller's channel and the
  -- caller's. (Which row a written one replaces is not said.)
  pub handlers-InChannel :
      (id : String) (item patch : Option Item) (status : Option String)
      (assignees : Option (List ℕ)) (w : World Call)
      → Makes (InChannel encode NoId me) (create_item env encode queries me item)
        × Makes (InChannel encode NoId me) (update_item env encode queries me id patch)
        × Adds
            (InChannel encode (IsOwnRow queries me w.calls id) me)
            w.calls
            (delete_item env encode queries me id w).1.calls
        × Makes (InChannel encode NoId me) (update_status env encode queries me id status)
        × Makes (InChannel encode NoId me) (update_assignees env encode queries me id assignees)
  handlers-InChannel id item patch status assignees w = (
    create_item-InChannel env encode queries me NoId item,
    update_item-InChannel env encode queries me NoId id patch,
    delete_item-InChannel id w,
    update_status-InChannel env encode queries me NoId id status,
    update_assignees-InChannel env encode queries me NoId id assignees,
  )
