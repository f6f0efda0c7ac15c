-- ===== src/Matching.antt =====
-- pkg/match: the waiting list of users and their pairing (service.go, repo.go), with the script
-- zPopMinOrAddOne of pkg/infra/redis.go.
--
-- The sorted set of Redis is the list `queue` of its members by score, and members of one score by
-- `before`, the order of their texts. The other services are parameters: `filtering` and `ranking`
-- are what the safety and the discovery service answer on a pair, `new_channel` what the chat service
-- answers to the n-th request, `redis` whether the n-th command succeeds.
pub mod Pairing
pub mod Histories
pub mod Sessions
use nexus_chat.Base.{
  ℕ, suc, String, Bool, true, false, ◌&&◌, ◌||◌, List, [], ◌∷◌, Option, none, some, ◌==◌, ltb,
  if◌then◌else◌,
}
use nexus_chat.Effects.{Result, ok, err}
use nexus_chat.Stateful.{Op, return, throw, ◌>>=◌, ◌>>◌}

pub record Waiter : Type 0 where
  pub user : ℕ
  pub score : ℕ

pub record MatchResult : Type 0 where
  pub matched : Bool
  pub user_id : ℕ
  pub peer_id : ℕ
  pub channel_id : ℕ
  pub access_token : String

pub data Filtering : Type 0 where
  unconfigured unreachable no_decision : Filtering
  -- the list of candidates that comes back is empty, or is not
  rejected accepted : Filtering

pub data Ranking : Type 0 where
  -- not configured, failed, or without a list
  unranked : Ranking
  ranked_empty ranked_some : Ranking

pub data Error : Type 0 where
  redis_failed no_filter filter_failed filter_silent no_channel : Error

pub record Services : Type 0 where
  pub redis : ℕ → Bool
  -- seconds
  pub clock : ℕ → ℕ
  pub before : ℕ → ℕ → Bool
  pub filtering : ℕ → ℕ → Filtering
  pub ranking : ℕ → ℕ → Ranking
  pub new_channel : ℕ → Option (ℕ × String)

pub record Lobby : Type 0 where
  pub queue : List Waiter
  pub commands : ℕ
  pub requests : ℕ

-- ZSCORE finds the member
unfoldable pub is_waiting : ℕ → List Waiter → Bool
is_waiting u [] = false
is_waiting u (w ∷ ws) = w.user == u || is_waiting u ws

-- ZREM
unfoldable pub remove_waiter : ℕ → List Waiter → List Waiter
remove_waiter u [] = []
remove_waiter u (w ∷ ws) = let rest = remove_waiter u ws in if w.user == u then rest else w ∷ rest

abbrev pub not_matched : MatchResult
not_matched = record {
  matched = false;
  user_id = 0;
  peer_id = 0;
  channel_id = 0;
  access_token = "";
}

module _ (services : Services) where
  abbrev pub stands_before : Waiter → Waiter → Bool
  stands_before a b = ltb a.score b.score || a.score == b.score && services.before a.user b.user

  -- ZADD of a new member
  unfoldable pub add_waiter : Waiter → List Waiter → List Waiter
  add_waiter a [] = a ∷ []
  add_waiter a (w ∷ ws) =
      let rest = add_waiter a ws in if stands_before a w then a ∷ w ∷ ws else w ∷ rest

  -- after ZSCORE found nothing: ZPOPMIN, or ZADD where the set is empty
  unfoldable pub pop_or_add : ℕ → ℕ → List Waiter → Option ℕ × List Waiter
  unfolding add_waiter
  pop_or_add score u [] = (none, add_waiter (record { user = u; score = score }) [])
  pop_or_add score u (w ∷ ws) = (some w.user, ws)

  -- the script zPopMinOrAddOne
  unfoldable pub pop_min_or_add : ℕ → ℕ → List Waiter → Option ℕ × List Waiter
  unfolding pop_or_add
  pop_min_or_add score u queue =
      if is_waiting u queue then (none, queue) else pop_or_add score u queue

  -- PopOrPushWaitList: the peer, where there is one
  unfoldable pub pop_or_push : ℕ → Op Lobby Error (Option ℕ)
  unfolding pop_min_or_add
  pop_or_push u s =
      let t = record s { commands = suc s.commands } in
      if services.redis s.commands
      then (let (peer, queue) = pop_min_or_add (services.clock s.commands) u s.queue in
          (ok peer, record t { queue = queue }))
      else (err redis_failed, t)

  abbrev pub result_of : ℕ → ℕ → ℕ × String → MatchResult
  result_of u peer (channel, token) = record {
    matched = true;
    user_id = u;
    peer_id = peer;
    channel_id = channel;
    access_token = token;
  }

  abbrev pub channel_answer : ℕ → ℕ → Option (ℕ × String) → Result Error MatchResult
  channel_answer u peer none = err no_channel
  channel_answer u peer (some c) = ok (result_of u peer c)

  -- the call of CreateChannel
  unfoldable pub open_channel : ℕ → ℕ → Op Lobby Error MatchResult
  open_channel u peer s = (
    channel_answer u peer (services.new_channel s.requests),
    record s { requests = suc s.requests },
  )

  unfoldable pub after_ranking : ℕ → ℕ → Ranking → Op Lobby Error MatchResult
  unfolding open_channel
  after_ranking u peer ranked_empty = return not_matched
  after_ranking u peer unranked = open_channel u peer
  after_ranking u peer ranked_some = open_channel u peer

  unfoldable pub after_filter : ℕ → ℕ → Filtering → Op Lobby Error MatchResult
  unfolding after_ranking
  after_filter u peer unconfigured = throw no_filter
  after_filter u peer unreachable = throw filter_failed
  after_filter u peer no_decision = throw filter_silent
  after_filter u peer rejected = return not_matched
  after_filter u peer accepted = after_ranking u peer (services.ranking u peer)

  unfoldable pub pair : ℕ → Option ℕ → Op Lobby Error MatchResult
  unfolding after_filter
  pair u none = return not_matched
  pair u (some peer) = after_filter u peer (services.filtering u peer)

  -- Match
  unfoldable pub match_user : ℕ → Op Lobby Error MatchResult
  unfolding pop_or_push pair
  match_user u = pop_or_push u >>= pair u

  -- RemoveUserFromWaitList
  unfoldable pub remove_from_list : ℕ → Op Lobby Error (Unit {0})
  unfolding remove_waiter
  remove_from_list u s =
      let t = record s { commands = suc s.commands } in
      if services.redis s.commands
      then (ok tt, record t { queue = remove_waiter u s.queue })
      else (err redis_failed, t)
