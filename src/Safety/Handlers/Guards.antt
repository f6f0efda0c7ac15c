-- ===== src/Safety/Handlers/Guards.antt =====
-- Who may use the handlers of moderators of pkg/safety/service.go.
use nexus_chat.Base.{ℕ, String, ◌≡◌, refl, false, List, Option}
use nexus_chat.Effects.{Result, ok, World, Env}
use nexus_chat.Realtime.Outbox.{Event}
use nexus_chat.Workspace.{Identity}
use nexus_chat.Safety.{Rule, Payload, Call, Queries, Texts, Limits, Error}
use nexus_chat.Safety.Handlers.{
  Reply, refused, is_moderator, update_report, create_rule, update_rule, delete_rule, get_risk,
}

abbrev pub denied : World Call → Result Error Reply × World Call
denied w = (ok (refused 403 "moderator permission required"), w)

-- To a caller who is no moderator, the change of a report, the creation, change and deletion of a
-- rule and the risk of a user reply 403, whatever the request, and make no call.
pub others_change_nothing :
    (env : Env Call) (encode : Event Payload → String) (queries : Queries) (texts : Texts)
    (limits : Limits) (moderators : List (Option ℕ)) (print : ℕ → String) (me : Identity)
    (id : String) (status : Option String) (rule : Option Rule) (user : Option ℕ) (w : World Call)
    → is_moderator moderators me.user_id ≡ false
    → (update_report env encode queries texts limits moderators print me id status w ≡ denied w)
      × (create_rule env encode queries texts limits moderators print me rule w ≡ denied w)
      × (update_rule env encode queries texts limits moderators print me id rule w ≡ denied w)
      × (delete_rule env encode queries texts limits moderators print me id w ≡ denied w)
      × (get_risk env encode queries texts limits moderators print me user w ≡ denied w)
unfolding update_report create_rule update_rule delete_rule get_risk
others_change_nothing env encode queries texts limits moderators print me id status rule user w h =
    (rw h refl, rw h refl, rw h refl, rw h refl, rw h refl)
