-- ===== src/Workspace/Lists/Owners.antt =====
-- Whose checklists and collections the handlers of pkg/workspace/service.go write.
use nexus_chat.Base.{String, ◌≡◌, refl, false, some, is_blank}
use nexus_chat.Effects.{ok, World, Env}
use nexus_chat.Realtime.Outbox.{Event}
use nexus_chat.Workspace.{Item, Identity, Call, Queries, nothing, message, respond}
use nexus_chat.Workspace.Items.Access.{NotOwned, owned_item-none}
use nexus_chat.Workspace.Lists.{
  ChecklistPatch, create_checklist, create_checklist_in, change_checklist, update_checklist_in,
  remove_checklist, delete_checklist_in,
}

-- To a caller who does not own the item under an id, creating a checklist of a text that is not
-- blank, changing and deleting one all reply 404 and make no call.
pub strangers_keep_checklists :
    (env : Env Call) (encode : Event Item → String) (queries : Queries) (me : Identity)
    (item id text : String) (patch : ChecklistPatch) (w : World Call)
    → is_blank text ≡ false
    → NotOwned me (queries.item_by_id w.calls item)
    → (create_checklist env encode queries me item (some text) w
        ≡ (ok (respond 404 (message "item not found")), w))
      × (change_checklist env encode queries me item id (some patch) w
          ≡ (ok (respond 404 (message "item not found")), w))
      × (remove_checklist env encode queries me item id w ≡ (ok (respond 404 nothing), w))
unfolding create_checklist create_checklist_in change_checklist update_checklist_in remove_checklist
    delete_checklist_in
strangers_keep_checklists env encode queries me item id text patch w b n =
    let e = owned_item-none env encode queries me item w.calls n in
    (rw (b, e) refl, rw e refl, rw e refl)
