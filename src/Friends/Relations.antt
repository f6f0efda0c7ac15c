-- ===== src/Friends/Relations.antt =====
-- What the user service tells of two users: GetRelationshipStatus of pkg/user/service.go, with
-- WasFriendRequestDeclined of pkg/user/repo.go.
use nexus_chat.Base.{ℕ, ◌≡◌, ◌≢◌, refl, Bool, true, false, Option, none, some}
use nexus_chat.Effects.{Result, ok, err}
use nexus_chat.Stateful.{Op, return, ◌>>=◌, continue}
use nexus_chat.Friends.{
  FriendRequest, Tables, Error, Services, is_declined, is_pending, is_present, read,
  durable_request, is_friend, accept_friend_request,
}
use nexus_chat.Friends.Requests.{Peers, incoming}
use nexus_chat.Friends.Friendships.{is_friend-accept_friend_request}

pub data Relation : Type 0 where
  befriended pending_outgoing pending_incoming turned_down unrelated : Relation

module _ (services : Services) (peers : Peers) where
  unfoldable pub declined_in : ℕ → ℕ → Option FriendRequest → Op Tables Error Bool
  declined_in from to (some r) = return (is_declined (some r))
  declined_in from to none = read services (λ t. is_present (t.declined_hash from to))

  -- WasFriendRequestDeclined
  unfoldable pub was_declined : ℕ → ℕ → Op Tables Error Bool
  was_declined from to = durable_request services to from >>= declined_in from to

  abbrev pub answer_if : Relation → Op Tables Error Relation → Bool → Op Tables Error Relation
  answer_if relation rest true = return relation
  answer_if relation rest false = rest

  unfoldable pub declined_or_unrelated : ℕ → ℕ → Op Tables Error Relation
  declined_or_unrelated user peer =
      was_declined user peer >>= answer_if turned_down (return unrelated)

  unfoldable pub requested_or_declined : ℕ → ℕ → Op Tables Error Relation
  requested_or_declined user peer = incoming services peers peer user >>= λ sent.
      answer_if pending_outgoing
        (incoming services peers user peer >>= λ got.
          answer_if pending_incoming (declined_or_unrelated user peer) (is_pending got))
        (is_pending sent)

  -- GetRelationshipStatus
  unfoldable pub relationship_status : ℕ → ℕ → Op Tables Error Relation
  relationship_status user peer =
      is_friend services user peer >>= answer_if befriended (requested_or_declined user peer)

  -- After an AcceptFriendRequest that succeeds, GetRelationshipStatus answers nothing but accepted.
  pub relationship_status-accept_friend_request :
      (to from : ℕ) (s t : Tables) (r : Relation)
      → accept_friend_request services to from s ≡ (ok tt, t)
      → (relationship_status to from t).0 ≡ ok r
      → r ≡ befriended
  unfolding relationship_status
  relationship_status-accept_friend_request to from s t r e h =
      of (is_friend services to from t) (is_friend-accept_friend_request services to from s t e).0 h
    where
      of :
          (x : Result Error Bool × Tables)
          → (x.0 ≢ ok false)
          → (continue (answer_if befriended (requested_or_declined to from)) x).0 ≡ ok r
          → r ≡ befriended
      of (ok true, u) n h = cc
      of (ok false, u) n h = absurd (n refl)
      of (err e, u) n h = cc
