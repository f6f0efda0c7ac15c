-- ===== src/Discovery.antt =====
-- pkg/discovery/service.go: the words of a profile, and the ranking of candidates.
--
-- `lower` is strings.ToLower, `in_order a b` the order of sort.Strings (a is not after b). A floating
-- point number is a value of `Float`, and what the code computes with them is `Scores`.
pub mod Sorting
pub mod Words
pub mod Overlaps
pub mod Ranks
use nexus_chat.Base.{
  ℕ, suc, ◌+◌, String, Bool, true, false, not, ◌&&◌, ◌||◌, List, [], ◌∷◌, ◌++◌, Option, none, some,
  ◌==◌, ltb, if◌then◌else◌, length, is_empty, str_eq, trim_space, is_empty_text,
}

pub record Profile : Type 0 where
  pub user_id : ℕ
  pub languages : List String
  pub interests : List String
  pub avoid_topics : List String
  pub conversation_goal : String
  pub enabled : Bool
  pub updated_at : ℕ

unfoldable pub has_word : String → List String → Bool
has_word w [] = false
has_word w (x ∷ xs) = str_eq x w || has_word w xs

module _ (lower : String → String) (in_order : String → String → Bool) where
  abbrev pub clean : String → String
  clean value = lower (trim_space value)

  -- the loop of normalize; `result` is what it has so far
  unfoldable pub collect : ℕ → List String → List String → List String
  unfolding has_word trim_space is_empty_text
  collect max [] result = result
  collect max (v ∷ values) result =
      let grown = result ++ (clean v ∷ []) in
      let skip = collect max values result in
      let take = collect max values grown in
      if is_empty_text (clean v)
      then skip
      else if has_word (clean v) result
      then skip
      else if length grown == max
      then grown
      else take

  unfoldable pub insert_word : String → List String → List String
  insert_word w [] = w ∷ []
  insert_word w (x ∷ xs) =
      let rest = insert_word w xs in if in_order w x then w ∷ x ∷ xs else x ∷ rest

  -- sort.Strings
  unfoldable pub sort_words : List String → List String
  unfolding insert_word
  sort_words [] = []
  sort_words (x ∷ xs) = insert_word x (sort_words xs)

  unfoldable pub normalize : List String → ℕ → List String
  unfolding collect sort_words
  normalize values max = sort_words (collect max values [])

  -- what putProfile stores
  unfoldable pub normalized : ℕ → Profile → Profile
  unfolding normalize trim_space
  normalized now p = record p {
    languages = normalize p.languages 10;
    interests = normalize p.interests 30;
    avoid_topics = normalize p.avoid_topics 20;
    conversation_goal = trim_space p.conversation_goal;
    updated_at = now;
  }

unfoldable pub union_with : List String → List String → List String
unfolding has_word
union_with union [] = union
union_with union (v ∷ vs) = union_with (if has_word v union then union else v ∷ union) vs

-- the words of the second list that the union holds when the loop comes to them
unfoldable pub common_in : List String → List String → ℕ
unfolding has_word
common_in union [] = 0
common_in union (v ∷ vs) =
    let n = common_in (if has_word v union then union else v ∷ union) vs in
    if has_word v union then suc n else n

-- overlap, as the numerator and the denominator of the quotient
unfoldable pub overlap : List String → List String → ℕ × ℕ
unfolding union_with common_in
overlap a b =
    if is_empty a || is_empty b
    then (0, 1)
    else (common_in (union_with [] a) b, length (union_with (union_with [] a) b))

pub record RankedCandidate (Float : Type 0) : Type 0 where
  pub user_id : ℕ
  pub score : Float

pub record Scores (Float : Type 0) : Type 0 where
  pub ten : Float
  -- the score of the interests, the languages, the reputation and a common goal
  pub weigh : ℕ × ℕ → ℕ × ℕ → Float → Bool → Float
  pub greater : Float → Float → Bool

-- what getProfile and reputation answer
pub record Answers (Float : Type 0) : Type 0 where
  -- the profile with an error, the empty one where there is none
  pub profile : ℕ → Profile × Bool
  pub reputation : ℕ → Float

module _ {Float : Type 0} (scores : Scores Float) (answers : Answers Float) where
  unfoldable pub conflicts : Profile → Profile → Bool
  unfolding overlap
  conflicts source candidate =
      ltb 0 (overlap source.avoid_topics candidate.interests).0
      || ltb 0 (overlap candidate.avoid_topics source.interests).0

  unfoldable pub score_of : Profile → Profile → ℕ → Float
  unfolding overlap is_empty_text
  score_of source candidate id =
      scores.weigh (overlap source.interests candidate.interests)
        (overlap source.languages candidate.languages) (answers.reputation id)
        (not (is_empty_text source.conversation_goal)
          && str_eq source.conversation_goal candidate.conversation_goal)

  -- one round of the loop of Rank
  unfoldable pub rank_one : ℕ → ℕ → Option (RankedCandidate Float)
  unfolding conflicts score_of
  rank_one user id =
      let source = (answers.profile user).0 in
      let (candidate, failed) = answers.profile id in
      if id == 0 || id == user
      then none
      else if failed || not candidate.enabled
      then some (record { user_id = id; score = scores.ten })
      else if conflicts source candidate
      then none
      else some (record { user_id = id; score = score_of source candidate id })

  unfoldable pub push_ranked :
      Option (RankedCandidate Float) → List (RankedCandidate Float) → List (RankedCandidate Float)
  push_ranked none rest = rest
  push_ranked (some r) rest = r ∷ rest

  unfoldable pub rank_all : ℕ → List ℕ → List (RankedCandidate Float)
  unfolding rank_one push_ranked
  rank_all user [] = []
  rank_all user (id ∷ ids) = push_ranked (rank_one user id) (rank_all user ids)

  -- sort.SliceStable by the greater score: an element goes before those that are not greater
  unfoldable pub insert_ranked :
      RankedCandidate Float → List (RankedCandidate Float) → List (RankedCandidate Float)
  insert_ranked r [] = r ∷ []
  insert_ranked r (x ∷ xs) =
      let rest = insert_ranked r xs in
      if scores.greater x.score r.score then x ∷ rest else r ∷ x ∷ xs

  unfoldable pub sort_ranked : List (RankedCandidate Float) → List (RankedCandidate Float)
  unfolding insert_ranked
  sort_ranked [] = []
  sort_ranked (x ∷ xs) = insert_ranked x (sort_ranked xs)

  -- Rank
  unfoldable pub rank : ℕ → List ℕ → List (RankedCandidate Float)
  unfolding rank_all sort_ranked
  rank user candidates = sort_ranked (rank_all user candidates)
