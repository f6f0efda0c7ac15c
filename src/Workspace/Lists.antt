-- ===== src/Workspace/Lists.antt =====
-- The handlers of checklists and collections of pkg/workspace/service.go.
pub mod Owners
use nexus_chat.Base.{
  ℕ, String, Bool, true, false, Option, none, some, str_eq, is_blank, if◌then◌else◌,
}
use nexus_chat.Effects.{
  Result, ok, err, World, Env, History, Action, ◌>>=◌, ◌>>◌, pure, ignore, attempt, call, now,
  new_uuid,
}
use nexus_chat.Realtime.Outbox.{Event}
use nexus_chat.Workspace.{
  Item, Identity, Call, insert_checklist, update_checklist, delete_checklist, insert_collection,
  update_collection, delete_collection, Error, unavailable, Answer, row, not_found, failed, Queries,
  Body, nothing, message, checklist_body, collection_body, Response, respond,
}
use nexus_chat.Workspace.Items.{owned_item}

-- the request of updateChecklist; `none` where `done` is missing
pub record ChecklistPatch : Type 0 where
  pub text : String
  pub done : Option Bool

abbrev pub done_or : Option Bool → Bool → Bool
done_or none old = old
done_or (some b) old = b

-- the reply to `if err := …Exec(); err != nil`
abbrev pub reply_to : Response → String → Result Error (Unit {0}) → Response
reply_to done failure (ok _) = done
reply_to done failure (err e) = respond 500 (message failure)

module _ (env : Env Call) (encode : Event Item → String) (queries : Queries) where
  unfoldable pub create_checklist_in : String → Option Item → Action Call Error Response
  unfolding now new_uuid call
  create_checklist_in text none = pure (respond 404 (message "item not found"))
  create_checklist_in text (some item) = do
    id ← new_uuid env
    t ← now env
    r ← attempt {E = Error} (call env unavailable (insert_checklist item.id id text false t))
    pure (reply_to (respond 201 (checklist_body id item.id text false)) "create checklist failed" r)

  -- createChecklist; the text is `none` where the body does not parse
  unfoldable pub create_checklist : Identity → String → Option String → Action Call Error Response
  unfolding owned_item create_checklist_in
  create_checklist me id none w = (ok (respond 400 (message "text is required")), w)
  create_checklist me id (some text) w =
      if is_blank text
      then (ok (respond 400 (message "text is required")), w)
      else create_checklist_in text (owned_item env encode queries me id w.calls) w

  unfoldable pub patch_row :
      String → String → ChecklistPatch → Answer (String × Bool) → Action Call Error Response
  unfolding now call
  patch_row item id patch (row (old_text, old_done)) = do
    let text = if str_eq patch.text "" then old_text else patch.text
    let done = done_or patch.done old_done
    t ← now env
    ignore {E = Error} (call env unavailable (update_checklist item id text done t))
    pure (respond 200 (checklist_body id item text done))
  patch_row item id patch not_found = pure (respond 404 (message "checklist not found"))
  patch_row item id patch failed = pure (respond 404 (message "checklist not found"))

  unfoldable pub update_checklist_in :
      String → ChecklistPatch → Option Item → Action Call Error Response
  unfolding patch_row
  update_checklist_in id patch none w = (ok (respond 404 (message "item not found")), w)
  update_checklist_in id patch (some item) w =
      patch_row item.id id patch (queries.checklist w.calls item.id id) w

  -- updateChecklist
  unfoldable pub change_checklist :
      Identity → String → String → Option ChecklistPatch → Action Call Error Response
  unfolding owned_item update_checklist_in
  change_checklist me item id none w = (ok (respond 400 (message "invalid checklist")), w)
  change_checklist me item id (some patch) w =
      update_checklist_in id patch (owned_item env encode queries me item w.calls) w

  unfoldable pub delete_checklist_in : String → Option Item → Action Call Error Response
  unfolding call
  delete_checklist_in id none = pure (respond 404 nothing)
  delete_checklist_in id (some item) = do
    ignore {E = Error} (call env unavailable (delete_checklist item.id id))
    pure (respond 204 nothing)

  -- deleteChecklist
  unfoldable pub remove_checklist : Identity → String → String → Action Call Error Response
  unfolding owned_item delete_checklist_in
  remove_checklist me item id w =
      delete_checklist_in id (owned_item env encode queries me item w.calls) w

  unfoldable pub store_collection : Identity → String → Action Call Error Response
  unfolding now new_uuid call
  store_collection me name = do
    id ← new_uuid env
    t ← now env
    u ← now env
    ignore {E = Error} (call env unavailable (insert_collection me.user_id id name t u))
    pure (respond 201 (collection_body id name))

  -- createCollection
  unfoldable pub create_collection : Identity → Option String → Action Call Error Response
  unfolding store_collection
  create_collection me none = pure (respond 400 (message "name is required"))
  create_collection me (some name) =
      if is_blank name
      then pure (respond 400 (message "name is required"))
      else store_collection me name

  unfoldable pub rename_collection : Identity → String → String → Action Call Error Response
  unfolding now call
  rename_collection me id name = do
    t ← now env
    r ← attempt {E = Error} (call env unavailable (update_collection me.user_id id name t))
    pure (reply_to (respond 200 (collection_body id name)) "update collection failed" r)

  -- updateCollection
  unfoldable pub change_collection : Identity → String → Option String → Action Call Error Response
  unfolding rename_collection
  change_collection me id none = pure (respond 400 (message "name is required"))
  change_collection me id (some name) =
      if is_blank name
      then pure (respond 400 (message "name is required"))
      else rename_collection me id name

  -- deleteCollection
  unfoldable pub remove_collection : Identity → String → Action Call Error Response
  unfolding call
  remove_collection me id = do
    r ← attempt {E = Error} (call env unavailable (delete_collection me.user_id id))
    pure (reply_to (respond 204 nothing) "delete collection failed" r)
