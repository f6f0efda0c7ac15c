-- ===== src/Scenarios/Safety.antt =====
-- A link that a rule scores, candidates around a block, and a request of no moderator.
use nexus_chat.Base.{
  arith, String, ◌≡◌, refl, true, false, not, ◌&&◌, ◌||◌, ◌==◌, ltb, [], ◌∷◌, some, none, member,
  if◌then◌else◌,
}
use nexus_chat.Effects.{Result, World, Env}
use nexus_chat.Effects.Facts.{Returns}
use nexus_chat.Realtime.Outbox.{Event}
use nexus_chat.Workspace.{Identity}
use nexus_chat.Safety.{Decision, Rule, Payload, Call, Queries, Texts, Limits, Error}
use nexus_chat.Safety.Moderation.{moderate}
use nexus_chat.Safety.Moderation.Grades.{IsGraded, moderate-Returns}
use nexus_chat.Safety.Handlers.{filter_candidates}
use nexus_chat.Safety.Handlers.Candidates.{filter_candidates-member}

abbrev up : Env Call
up = record { accepts = λ h c. true; clock = λ n. n; uuid = λ n. "d" }

abbrev encode : Event Payload → String
encode e = e.event_id

abbrev no_links : Rule
no_links = record {
  id = "r";
  name = "no links";
  pattern = "www";
  score = 50;
  enabled = true;
  created_at = 1;
  updated_at = 1;
}

abbrev queries : Queries
queries = record {
  muted = λ h u. false;
  rate = λ h u w. 1;
  repeats = λ h u t. 1;
  rules = λ h. no_links ∷ [];
  report = λ h id. none;
  block_row = λ h a b. a == 4;
  risk = λ h u. 10;
}

abbrev texts : Texts
texts = record {
  trim = λ s. s;
  lower = λ s. s;
  is_scam = λ s. false;
  is_toxic = λ s. false;
  has_url = λ s. true;
  matches = λ p s. some true;
  compiles = λ p. true;
}

abbrev limits : Limits
limits = record {
  window_second = 10;
  max_messages = 20;
  mute_second = 60;
  block_score = 70;
  warn_score = 40;
}

abbrev start : World Call
start = record { calls = []; readings = 0; ids = 0 }

moderate-Returns_example :
    Returns
      (λ (p : Decision × Result Error (Unit {0})).
        if false
        then (p.0.score ≡ 100) × (p.0.action ≡ "block")
        else IsGraded texts limits "www.x" (no_links ∷ []) p.0)
      (moderate up encode queries texts limits 7 1 2 "www.x")
moderate-Returns_example =
    moderate-Returns up encode queries texts limits (no_links ∷ []) 7 1 2 "www.x" false
      (omega arith) (λ h. refl) (λ h. refl)

filter_candidates-member_example :
    member 3 (filter_candidates up encode queries texts limits [] (λ n. "") [] 2 (3 ∷ 4 ∷ [])) ≡ (
      member 3 (3 ∷ 4 ∷ [])
      && not (3 == 0)
      && not (3 == 2)
      && not (queries.block_row [] 2 3 || queries.block_row [] 3 2)
      && ltb (queries.risk [] 3) limits.block_score)
filter_candidates-member_example =
    filter_candidates-member up encode queries texts limits [] (λ n. "") [] 2 3 (3 ∷ 4 ∷ [])

abbrev eve : Identity
eve = record { user_id = 9; channel_id = 7 }
