-- ===== src/Chat/Messages/Changes.antt =====
-- Which messages a user can change, and what a refused message leaves, in pkg/chat/service.go.
use nexus_chat.Base.{
  ℕ, String, ◌≡◌, refl, sym, subst, true, not, ◌||◌, ◌==◌, ◌⊎◌, inl, inr, Bool-cases, List,
  if◌then◌else◌, arith,
}
use nexus_chat.Effects.{Result, err, World, Env, History}
use nexus_chat.Effects.Facts.{Adds, Makes, Makes-bind, makes_rules}
use nexus_chat.Chat.{
  value, Message, EventKind, text, Call, next_id, Error, not_owner, already_deleted, unavailable,
  blocked_message, Moderation, refused, unreachable, Queries,
}
use nexus_chat.Chat.Messages.{
  check_own, edit_text, edit_checked, delete_for_all, delete_checked, new_message, moderated,
  broadcast_made, broadcast_text,
}

-- The error that an attempt to change the message ends in, where there is one.
abbrev pub refusal : ℕ → Message → Error
refusal user m = if not (m.user_id == user) then not_owner else already_deleted

-- A message of another user, and one that is deleted already, can be neither edited nor deleted:
-- EditMessage and DeleteMessageForAll return the error that says which and make no call.
pub closed_message-unchanged :
    (env : Env Call) (queries : Queries) (join : List String → String) (print : ℕ → String)
    (warning : String → String) (channel user id : ℕ) (body : String) (m : Message) (w : World Call)
    → queries.message w.calls channel id ≡ value m
    → (not (m.user_id == user) || m.deleted_for_all) ≡ true
    → (edit_text env queries join print warning channel user id body w ≡ (err (refusal user m), w))
      × (delete_for_all env queries join print warning channel user id w
          ≡ (err (refusal user m), w))
unfolding edit_text edit_checked delete_for_all delete_checked check_own
closed_message-unchanged env queries join print warning channel user id body m w found h =
    elim (Bool-cases (m.user_id == user)) [
      | inl mine ↦
          let gone : m.deleted_for_all ≡ true = ground (arith, mine, h) in
          (rw (found, mine, gone) refl, rw (found, mine, gone) refl)
      | inr other ↦ (rw (found, other) refl, rw (found, other) refl)
    ]

-- the calls that make an identifier
abbrev pub IsNextId : Call → Type 0
IsNextId next_id = Unit
IsNextId _ = ⊥

Makes-new_message :
    (env : Env Call) (queries : Queries) (join : List String → String) (print : ℕ → String)
    (warning : String → String) (event : EventKind) (channel user : ℕ) (payload : String)
    → Makes IsNextId (new_message env queries join print warning event channel user payload)
unfolding new_message
Makes-new_message env queries join print warning event channel user payload =
    search (makes_rules, tt)

-- the error for an answer
abbrev reason : Moderation → Error
reason refused = blocked_message
reason _ = unavailable

broadcast_made-refused :
    (env : Env Call) (queries : Queries) (join : List String → String) (print : ℕ → String)
    (warning : String → String) (m : Message) (answer : Moderation) (w : World Call)
    → queries.moderation w.calls m ≡ answer
    → (answer ≡ refused) ⊎ (answer ≡ unreachable)
    → broadcast_made env queries join print warning m w ≡ (err (reason answer), w)
unfolding broadcast_made moderated
broadcast_made-refused env queries join print warning m answer w says (inl e) = rw (says, e) refl
broadcast_made-refused env queries join print warning m answer w says (inr e) = rw (says, e) refl

-- A text that the safety service refuses, or that it cannot be asked about, is neither stored nor
-- published: BroadcastTextMessage makes no call but the one for the identifier.
pub broadcast_text-refused :
    (env : Env Call) (queries : Queries) (join : List String → String) (print : ℕ → String)
    (warning : String → String) (channel user : ℕ) (body : String) (parent : ℕ)
    (answer : Moderation)
    → ((h : History Call) (m : Message) → queries.moderation h m ≡ answer)
    → (answer ≡ refused) ⊎ (answer ≡ unreachable)
    → Makes IsNextId (broadcast_text env queries join print warning channel user body parent)
unfolding broadcast_text
broadcast_text-refused env queries join print warning channel user body parent answer says bad =
    Makes-bind _ _ (Makes-new_message env queries join print warning text channel user body) λ m.
      record {
        at = λ w.
            let n = record m { parent_id = parent } in
            subst (λ (x : Result Error (Unit {0}) × World Call). Adds IsNextId w.calls x.1.calls)
              (sym (
                broadcast_made-refused env queries join print warning n answer w (says w.calls n)
                  bad))
              Adds.same;
      }
