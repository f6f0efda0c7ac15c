-- ===== src/Scenarios/Matching.antt =====
-- Two users who meet in the waiting list, one pair that is filtered out, and their sessions.
use nexus_chat.Base.{ℕ, ◌≤◌, ◌≡◌, refl, ◌==◌, ◌||◌, true, false, [], ◌∷◌, some, length}
use nexus_chat.Effects.{ok, World, Env}
use nexus_chat.Matching.{
  MatchResult, rejected, accepted, unranked, Services, Lobby, is_waiting, match_user, not_matched,
  pop_min_or_add, pop_or_add, pop_or_push, pair, after_filter, after_ranking, open_channel,
}
use nexus_chat.Matching.Pairing.{IsFair, match_user-IsFair, match_user-lost}
use nexus_chat.Matching.Histories.{start, next, matches, empty_lobby, Reach-IsShort}
use nexus_chat.Matching.Sessions.{
  Session, Call, add_user, deliver, send_result, deliver-send_result, deliver-joined, deliver_to,
  join_channel,
}

-- the safety service lets every pair through but that of 2 and 1
abbrev services : Services
services = record {
  redis = λ n. true;
  clock = λ n. n;
  before = λ a b. true;
  filtering = λ u v. elim (u == 2) [ true ↦ rejected | false ↦ accepted ];
  ranking = λ u v. unranked;
  new_channel = λ n. some (7, "t");
}

abbrev one_waits : Lobby
one_waits = record { queue = record { user = 1; score = 0 } ∷ []; commands = 1; requests = 0 }

abbrev paired : MatchResult
paired = record { matched = true; user_id = 3; peer_id = 1; channel_id = 7; access_token = "t" }

match_user-IsFair_example : IsFair services 3 one_waits.queue paired []
unfolding match_user pop_or_push pop_min_or_add pair after_filter after_ranking open_channel
    pop_or_add is_waiting
match_user-IsFair_example =
    match_user-IsFair services 3 one_waits (record { queue = []; commands = 2; requests = 1 })
      paired refl refl

match_user-lost_example :
    ((match_user services 2 one_waits).0 ≡ ok not_matched)
    × ((is_waiting 2 (match_user services 2 one_waits).1.queue ≡ false)
        × (is_waiting 1 (match_user services 2 one_waits).1.queue ≡ false))
unfolding is_waiting
match_user-lost_example =
    match_user-lost services 2 one_waits (record { user = 1; score = 0 }) [] refl refl refl refl
      refl

Reach-IsShort_example : length (match_user services 1 empty_lobby).1.queue ≤ 1
Reach-IsShort_example = Reach-IsShort services (next start (matches 1 empty_lobby))

abbrev every_call : Env Call
every_call = record { accepts = λ h c. true; clock = λ n. n; uuid = λ n. "" }

abbrev quiet : World Call
quiet = record { calls = []; readings = 0; ids = 0 }

abbrev session : Session
session = record { uid = some 1; is_matched = false }

deliver-send_result_example :
    deliver every_call paired session quiet ≡ send_result every_call paired session quiet
deliver-send_result_example = deliver-send_result every_call paired session quiet

deliver-joined_example :
    (session.is_matched ≡ false)
    × ((u : ℕ) × ((session.uid ≡ some u)
          × (((u == paired.peer_id || u == paired.user_id) ≡ true)
              × (((deliver every_call paired session quiet).1.0.is_matched ≡ true)
                  × ((deliver every_call paired session quiet).1.1.calls
                      ≡ (add_user paired.channel_id u, true) ∷ quiet.calls)))))
unfolding deliver_to join_channel
deliver-joined_example = deliver-joined every_call paired session quiet refl
