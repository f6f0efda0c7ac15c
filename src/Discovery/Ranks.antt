-- ===== src/Discovery/Ranks.antt =====
-- Whom Rank of pkg/discovery/service.go lists, and in which order.
use nexus_chat.Base.{
  ℕ, String, is_empty, ◌≡◌, refl, ap, ◌∙◌, inl, inr, Bool, true, false, not, ◌&&◌, ◌||◌, List, [],
  ◌∷◌, none, some, ◌==◌, ==_iff, if◌then◌else◌, arith, Bool-cases, member,
}
use nexus_chat.Discovery.{
  Profile, RankedCandidate, Scores, Answers, conflicts, score_of, rank_one, push_ranked, rank_all,
  insert_ranked, sort_ranked, rank,
}
use nexus_chat.Discovery.Overlaps.{shares, repeats, overlap-shares}

module _ {Float : Type 0} (scores : Scores Float) (answers : Answers Float) where
  abbrev pub is_ranked : ℕ → List (RankedCandidate Float) → Bool
  is_ranked id [] = false
  is_ranked id (r ∷ rs) = r.user_id == id || is_ranked id rs

  -- Both lists have words, and one of the second is in the first or comes twice.
  abbrev pub clash : List String → List String → Bool
  clash avoided interests =
      not (is_empty avoided) && (shares avoided interests || repeats interests)

  -- The topics that one of the two avoids clash with the interests of the other.
  abbrev pub at_odds : Profile → Profile → Bool
  at_odds p q = clash p.avoid_topics q.interests || clash q.avoid_topics p.interests

  conflicts-at_odds : (p q : Profile) → conflicts scores answers p q ≡ at_odds p q
  unfolding conflicts
  conflicts-at_odds p q =
      rw (overlap-shares p.avoid_topics q.interests, overlap-shares q.avoid_topics p.interests) refl

  -- another user than 0 and the one who asks, who is not known to be at odds with the latter
  abbrev pub is_rankable : ℕ → ℕ → Bool
  is_rankable user id =
      let (candidate, failed) = answers.profile id in
      not (id == 0)
      && not (id == user)
      && (failed || not candidate.enabled || not (at_odds (answers.profile user).0 candidate))

  is_ranked-push_ranked :
      (user id j : ℕ) (rest : List (RankedCandidate Float))
      → is_ranked id (push_ranked scores answers (rank_one scores answers user j) rest)
        ≡ (j == id && is_rankable user j || is_ranked id rest)
  unfolding rank_one push_ranked
  is_ranked-push_ranked user id j rest =
      branch (j == 0) (j == user) (answers.profile j).1 (answers.profile j).0.enabled
        (conflicts scores answers (answers.profile user).0 (answers.profile j).0)
      ∙ rw (conflicts-at_odds (answers.profile user).0 (answers.profile j).0) refl
    where
      branch :
          (z s f e c : Bool)
          → is_ranked id (
              push_ranked scores answers
                (if z || s
                  then none
                  else if f || not e
                  then some (record { user_id = j; score = scores.ten })
                  else if c
                  then none
                  else some (record {
                    user_id = j;
                    score =
                        score_of scores answers (answers.profile user).0 (answers.profile j).0 j;
                  }))
                rest)
            ≡ (j == id && (not z && not s && (f || not e || not c)) || is_ranked id rest)
      branch true s f e c = ground arith
      branch false true f e c = ground arith
      branch false false true e c = ground arith
      branch false false false true true = ground arith
      branch false false false true false = ground arith
      branch false false false false c = ground arith

  is_ranked-rank_all :
      (user id : ℕ) (ids : List ℕ)
      → is_ranked id (rank_all scores answers user ids) ≡ (member id ids && is_rankable user id)
  unfolding rank_all member
  is_ranked-rank_all user id [] = refl
  is_ranked-rank_all user id (j ∷ ids) =
      is_ranked-push_ranked user id j (rank_all scores answers user ids)
      ∙ ground (
        arith,
        is_ranked-rank_all user id ids,
        λ (e : (j == id) ≡ true). ap (is_rankable user) ((==_iff j id).0 e),
      )

  is_ranked-insert_ranked :
      (id : ℕ) (r : RankedCandidate Float) (xs : List (RankedCandidate Float))
      → is_ranked id (insert_ranked scores answers r xs) ≡ (r.user_id == id || is_ranked id xs)
  unfolding insert_ranked
  is_ranked-insert_ranked id r [] = refl
  is_ranked-insert_ranked id r (x ∷ xs) = ground (arith, is_ranked-insert_ranked id r xs)

  is_ranked-sort_ranked :
      (id : ℕ) (xs : List (RankedCandidate Float))
      → is_ranked id (sort_ranked scores answers xs) ≡ is_ranked id xs
  unfolding sort_ranked
  is_ranked-sort_ranked id [] = refl
  is_ranked-sort_ranked id (x ∷ xs) =
      is_ranked-insert_ranked id x (sort_ranked scores answers xs)
      ∙ ap (λ b. x.user_id == id || b) (is_ranked-sort_ranked id xs)

  -- no candidate has a greater score than the one before
  abbrev pub IsDescending : List (RankedCandidate Float) → Type 0
  IsDescending [] = Unit
  IsDescending (x ∷ []) = Unit
  IsDescending (x ∷ y ∷ ys) = (scores.greater y.score x.score ≡ false) × IsDescending (y ∷ ys)

  module _
      (asymmetric : (a b : Float) → scores.greater a b ≡ true → scores.greater b a ≡ false) where
    insert_ranked-IsDescending :
        (r : RankedCandidate Float) (xs : List (RankedCandidate Float))
        → IsDescending xs
        → IsDescending (insert_ranked scores answers r xs)
    unfolding insert_ranked
    insert_ranked-IsDescending r [] s = tt
    insert_ranked-IsDescending r (x ∷ []) s = elim (Bool-cases (scores.greater x.score r.score)) [
      | inl e ↦ rw e (asymmetric _ _ e, tt)
      | inr e ↦ rw e (e, tt)
    ]
    insert_ranked-IsDescending r (x ∷ y ∷ ys) s =
        elim (Bool-cases (scores.greater x.score r.score)) [
          | inr e ↦ rw e (e, s)
          | inl e ↦ rw e (
              next (scores.greater y.score r.score) (asymmetric _ _ e)
                (insert_ranked-IsDescending r (y ∷ ys) s.1))
        ]
      where
        next :
            (b : Bool)
            → scores.greater r.score x.score ≡ false
            → IsDescending (if b then y ∷ insert_ranked scores answers r ys else r ∷ y ∷ ys)
            → IsDescending (x ∷ (if b then y ∷ insert_ranked scores answers r ys else r ∷ y ∷ ys))
        next true e d = (s.0, d)
        next false e d = (e, d)

    sort_ranked-IsDescending :
        (xs : List (RankedCandidate Float)) → IsDescending (sort_ranked scores answers xs)
    unfolding sort_ranked
    sort_ranked-IsDescending [] = tt
    sort_ranked-IsDescending (x ∷ xs) =
        insert_ranked-IsDescending x (sort_ranked scores answers xs) (sort_ranked-IsDescending xs)

-- Where no score is greater than one that is greater than it: Rank lists exactly those candidates that
-- are not 0, not the user who asks, and have no enabled profile that can be read or one that is not at
-- odds with the user's; and no listed candidate has a greater score than the one before. Two profiles
-- are at odds if for one of them, either way round, the list of the topics it avoids is not empty and
-- the interests of the other have a word of that list or a word twice (which normalize leaves out).
pub rank-IsDescending :
    {Float : Type 0} (scores : Scores Float) (answers : Answers Float) (user : ℕ)
    (candidates : List ℕ)
    → ((a b : Float) → scores.greater a b ≡ true → scores.greater b a ≡ false)
    → ((id : ℕ)
        → is_ranked scores answers id (rank scores answers user candidates)
          ≡ (member id candidates && is_rankable scores answers user id))
      × IsDescending scores answers (rank scores answers user candidates)
unfolding rank
rank-IsDescending scores answers user candidates asymmetric = (
  λ id.
      is_ranked-sort_ranked scores answers id (rank_all scores answers user candidates)
      ∙ is_ranked-rank_all scores answers user id candidates,
  sort_ranked-IsDescending scores answers asymmetric (rank_all scores answers user candidates),
)
