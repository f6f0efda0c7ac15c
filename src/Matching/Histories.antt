-- ===== src/Matching/Histories.antt =====
-- How the waiting list of pkg/match grows and shrinks over any calls of Match and
-- RemoveUserFromWaitList.
use nexus_chat.Base.{
  ℕ, suc, String, ◌≤◌, Bool, true, false, List, [], ◌∷◌, Option, none, some, arith, if◌then◌else◌,
  length,
}
use nexus_chat.Stateful.{Ends, Keeps, Ensures-bind, Keeps-return, Keeps-throw, Keeps-after}
use nexus_chat.Matching.{
  Waiter, Filtering, unconfigured, unreachable, no_decision, rejected, accepted, Ranking, unranked,
  ranked_empty, ranked_some, Services, Lobby, is_waiting, remove_waiter, add_waiter, pop_or_add,
  pop_min_or_add, pop_or_push, open_channel, after_ranking, after_filter, pair, match_user,
  remove_from_list, channel_answer,
}

abbrev pub empty_lobby : Lobby
empty_lobby = record { queue = []; commands = 0; requests = 0 }

-- At most one user waits.
abbrev pub IsShort : Lobby → Type 0
IsShort s = length s.queue ≤ 1

module _ (services : Services) where
  pub data Step : Lobby → Lobby → Type 0 where
    matches : (u : ℕ) (s : Lobby) → Step s (match_user services u s).1
    leaves : (u : ℕ) (s : Lobby) → Step s (remove_from_list services u s).1

  pub data Reach : Lobby → Type 0 where
    start : Reach empty_lobby
    next : {s t : Lobby} → Reach s → Step s t → Reach t

  -- a queue of at most one waiter stays one
  pop_or_add-length :
      (score u : ℕ) (queue : List Waiter)
      → length queue ≤ 1
      → length (pop_or_add services score u queue).1 ≤ 1
  unfolding pop_or_add add_waiter
  pop_or_add-length score u [] h = omega arith
  pop_or_add-length score u (w ∷ ws) h = omega (arith, h)

  pop_min_or_add-length :
      (score u : ℕ) (queue : List Waiter)
      → length queue ≤ 1
      → length (pop_min_or_add services score u queue).1 ≤ 1
  unfolding pop_min_or_add
  pop_min_or_add-length score u queue h = branch (is_waiting u queue)
    where
      branch :
          (b : Bool) → length (if b then (none, queue) else pop_or_add services score u queue).1 ≤ 1
      branch true = h
      branch false = pop_or_add-length score u queue h

  pop_or_push-Keeps : (u : ℕ) → Keeps IsShort (pop_or_push services u)
  unfolding pop_or_push
  pop_or_push-Keeps u = record {
    at = λ s h. ground (arith, pop_min_or_add-length (services.clock s.commands) u s.queue h);
  }

  open_channel-Keeps : (u peer : ℕ) → Keeps IsShort (open_channel services u peer)
  unfolding open_channel
  open_channel-Keeps u peer = record { at = λ s h. answered s h (services.new_channel s.requests) }
    where
      answered :
          (s : Lobby)
          → IsShort s
          → (o : Option (ℕ × String))
          → Ends
              (λ a. IsShort)
              IsShort
              (channel_answer services u peer o, record s { requests = suc s.requests })
      answered s h none = h
      answered s h (some c) = h

  after_ranking-Keeps :
      (u peer : ℕ) (ranking : Ranking) → Keeps IsShort (after_ranking services u peer ranking)
  unfolding after_ranking
  after_ranking-Keeps u peer unranked = open_channel-Keeps u peer
  after_ranking-Keeps u peer ranked_some = open_channel-Keeps u peer
  after_ranking-Keeps u peer ranked_empty = Keeps-return _

  after_filter-Keeps :
      (u peer : ℕ) (answer : Filtering) → Keeps IsShort (after_filter services u peer answer)
  unfolding after_filter
  after_filter-Keeps u peer unconfigured = Keeps-throw _
  after_filter-Keeps u peer unreachable = Keeps-throw _
  after_filter-Keeps u peer no_decision = Keeps-throw _
  after_filter-Keeps u peer rejected = Keeps-return _
  after_filter-Keeps u peer accepted = after_ranking-Keeps u peer (services.ranking u peer)

  pair-Keeps : (u : ℕ) (o : Option ℕ) → Keeps IsShort (pair services u o)
  unfolding pair
  pair-Keeps u none = Keeps-return _
  pair-Keeps u (some peer) = after_filter-Keeps u peer (services.filtering u peer)

  match_user-Keeps : (u : ℕ) → Keeps IsShort (match_user services u)
  unfolding match_user
  match_user-Keeps u =
      Ensures-bind (pop_or_push services u) (pair services u) (pop_or_push-Keeps u) (pair-Keeps u)

  remove_waiter-length :
      (u : ℕ) (queue : List Waiter) → length (remove_waiter u queue) ≤ length queue
  unfolding remove_waiter
  remove_waiter-length u [] = omega arith
  remove_waiter-length u (w ∷ ws) = ground (arith, remove_waiter-length u ws)

  remove_from_list-Keeps : (u : ℕ) → Keeps IsShort (remove_from_list services u)
  unfolding remove_from_list
  remove_from_list-Keeps u = record { at = λ s h. ground (arith, remove_waiter-length u s.queue) }

  Step-IsShort : {s t : Lobby} → Step s t → IsShort s → IsShort t
  Step-IsShort (matches u s) h = Keeps-after (match_user services u) s (match_user-Keeps u) h
  Step-IsShort (leaves u s) h =
      Keeps-after (remove_from_list services u) s (remove_from_list-Keeps u) h

  -- After any calls of Match and RemoveUserFromWaitList from the empty waiting list, whichever of
  -- them fail and whatever the other services answer, at most one user waits.
  pub Reach-IsShort : {s : Lobby} → Reach s → length s.queue ≤ 1
  Reach-IsShort start = omega arith
  Reach-IsShort (next r step) = Step-IsShort step (Reach-IsShort r)
