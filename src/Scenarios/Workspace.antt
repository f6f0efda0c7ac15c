-- ===== src/Scenarios/Workspace.antt =====
-- An item of user 1 in channel 7, and a stranger.
use nexus_chat.Base.{arith, String, ◌≡◌, refl, true, [], ◌∷◌, some, none}
use nexus_chat.Effects.{ok, World, Env}
use nexus_chat.Effects.Facts.{Adds, Makes}
use nexus_chat.Realtime.Outbox.{Event}
use nexus_chat.Workspace.{Item, Identity, Call, row, not_found, Queries, nothing, message, respond}
use nexus_chat.Workspace.Items.{
  create_item, update_item, delete_item, update_status, update_assignees,
}
use nexus_chat.Workspace.Items.Ownership.{InChannel, NoId, IsOwnRow, handlers-InChannel}
use nexus_chat.Workspace.Items.Access.{strangers_change_nothing}

abbrev milk : Item
milk = record {
  id = "i1";
  channel_id = 7;
  owner_id = 1;
  kind = "task";
  title = "buy milk";
  content = "";
  status = "todo";
  priority = "normal";
  assignees = [];
  tags = [];
  message_id = 0;
  due_at = none;
  created_at = 3;
  updated_at = 3;
  archived_at = none;
}

abbrev alice : Identity
alice = record { user_id = 1; channel_id = 7 }

abbrev mallory : Identity
mallory = record { user_id = 1; channel_id = 8 }

abbrev up : Env Call
up = record { accepts = λ h c. true; clock = λ n. n; uuid = λ n. "new" }

abbrev encode : Event Item → String
encode e = e.payload.id

abbrev queries : Queries
queries = record {
  item_by_id = λ h id. row milk;
  member = λ h c u. row u;
  checklist = λ h i k. not_found;
}

abbrev start : World Call
start = record { calls = []; readings = 9; ids = 0 }

handlers-InChannel_example :
    Makes (InChannel encode NoId alice) (create_item up encode queries alice (some milk))
    × Makes (InChannel encode NoId alice) (update_item up encode queries alice "i1" (some milk))
    × Adds
        (InChannel encode (IsOwnRow queries alice start.calls "i1") alice)
        start.calls
        (delete_item up encode queries alice "i1" start).1.calls
    × Makes (InChannel encode NoId alice) (update_status up encode queries alice "i1" (some "done"))
    × Makes
        (InChannel encode NoId alice)
        (update_assignees up encode queries alice "i1" (some (1 ∷ [])))
handlers-InChannel_example =
    handlers-InChannel up encode queries alice "i1" (some milk) (some milk) (some "done")
      (some (1 ∷ [])) start

strangers_change_nothing_example :
    (update_item up encode queries mallory "i1" (some milk) start
      ≡ (ok (respond 404 (message "item not found")), start))
    × (delete_item up encode queries mallory "i1" start ≡ (ok (respond 404 nothing), start))
    × (update_status up encode queries mallory "i1" (some "done") start
        ≡ (ok (respond 404 nothing), start))
    × (update_assignees up encode queries mallory "i1" (some (2 ∷ [])) start
        ≡ (ok (respond 404 nothing), start))
strangers_change_nothing_example =
    strangers_change_nothing up encode queries mallory "i1" "done" (some milk) (2 ∷ []) start refl
      (λ m. omega (arith, m.0))
