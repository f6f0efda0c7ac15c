-- ===== src/Safety/Handlers/Candidates.antt =====
-- BatchFilterCandidates of pkg/safety/service.go.
use nexus_chat.Base.{
  ℕ, String, ◌≡◌, not, ◌&&◌, ◌||◌, List, [], ◌∷◌, Option, arith, ◌==◌, ==_iff, ltb, member,
  Bool-cases, inl, inr, subst, sym,
}
use nexus_chat.Effects.{Env, History}
use nexus_chat.Realtime.Outbox.{Event}
use nexus_chat.Safety.{Payload, Call, Queries, Texts, Limits}
use nexus_chat.Safety.Handlers.{is_blocked, filter_candidates}

-- BatchFilterCandidates returns exactly the numbers of the request that are not 0, not the user,
-- in no block with the user in either direction, and of a risk below the block score.
pub filter_candidates-member :
    (env : Env Call) (encode : Event Payload → String) (queries : Queries) (texts : Texts)
    (limits : Limits) (moderators : List (Option ℕ)) (print : ℕ → String) (h : History Call)
    (user id : ℕ) (ids : List ℕ)
    → member id (filter_candidates env encode queries texts limits moderators print h user ids) ≡ (
        member id ids
        && not (id == 0)
        && not (id == user)
        && not (queries.block_row h user id || queries.block_row h id user)
        && ltb (queries.risk h id) limits.block_score)
unfolding filter_candidates member is_blocked
filter_candidates-member env encode queries texts limits moderators print h user id [] =
    ground arith
filter_candidates-member env encode queries texts limits moderators print h user id (x ∷ xs) =
    let rest =
      filter_candidates-member env encode queries texts limits moderators print h user id xs in
    elim (Bool-cases (x == id)) [
      | inl e ↦
          subst
            (λ y.
              member id
                (filter_candidates env encode queries texts limits moderators print h user (y ∷ xs))
              ≡ (member id (y ∷ xs)
                  && not (id == 0)
                  && not (id == user)
                  && not (queries.block_row h user id || queries.block_row h id user)
                  && ltb (queries.risk h id) limits.block_score))
            (sym ((==_iff x id).0 e)) (ground (arith, rest, ==_iff id id))
      | inr n ↦ ground (arith, rest, n)
    ]
