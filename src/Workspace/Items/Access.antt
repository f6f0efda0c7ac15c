-- ===== src/Workspace/Items/Access.antt =====
-- What the item handlers of pkg/workspace/service.go reply to a caller who does not own the item.
use nexus_chat.Base.{ℕ, String, ◌≡◌, refl, true, false, List, Option, none, some, ==_iff, arith}
use nexus_chat.Effects.{ok, World, Env, History}
use nexus_chat.Realtime.Outbox.{Event}
use nexus_chat.Workspace.{
  Item, Identity, Call, Queries, Answer, row, not_found, failed, nothing, message, respond,
}
use nexus_chat.Workspace.Items.{
  get_item, owned, check_owned, owned_item, update_found, update_item, delete_found, delete_item,
  is_status, resave, update_status, update_assignees,
}

-- A row that the table answers is of another channel or of another user than the caller's.
abbrev pub NotOwned : Identity → Answer Item → Type 0
NotOwned me (row item) = ¬ ((item.channel_id ≡ me.channel_id) × (item.owner_id ≡ me.user_id))
NotOwned me _ = Unit

module _ (env : Env Call) (encode : Event Item → String) (queries : Queries) (me : Identity) where
  pub owned_item-none :
      (id : String) (h : History Call)
      → NotOwned me (queries.item_by_id h id)
      → owned_item env encode queries me id h ≡ none
  unfolding owned_item check_owned get_item
  owned_item-none id h n = check (queries.item_by_id h id) n
    where
      check :
          (a : Answer Item)
          → NotOwned me a
          → check_owned env encode queries me
              (elim a [ row item ↦ some item | not_found ↦ none | failed ↦ none ])
            ≡ none
      check (row item) m =
          let other : owned env encode queries me item ≡ false =
            ground
              (arith, m, ==_iff item.channel_id me.channel_id, ==_iff item.owner_id me.user_id) in
          rw other refl
      check not_found m = refl
      check failed m = refl

  -- To a caller who does not own the item under an id (it is missing, unreadable, of another
  -- channel or of another user), the update, the deletion, a change to a valid status and a change
  -- of assignees all reply 404, whatever the new content, and make no call, read no clock and draw
  -- no identifier.
  pub strangers_change_nothing :
      (id status : String) (patch : Option Item) (assignees : List ℕ) (w : World Call)
      → is_status env encode queries status ≡ true
      → NotOwned me (queries.item_by_id w.calls id)
      → (update_item env encode queries me id patch w
          ≡ (ok (respond 404 (message "item not found")), w))
        × (delete_item env encode queries me id w ≡ (ok (respond 404 nothing), w))
        × (update_status env encode queries me id (some status) w ≡ (ok (respond 404 nothing), w))
        × (update_assignees env encode queries me id (some assignees) w
            ≡ (ok (respond 404 nothing), w))
  unfolding update_item update_found delete_item delete_found update_status update_assignees resave
  strangers_change_nothing id status patch assignees w s n =
      let e = owned_item-none id w.calls n in (rw e refl, rw e refl, rw (s, e) refl, rw e refl)
