-- ===== src/Scenarios/Discovery.antt =====
-- Words that are given twice, and the ranking of two users among four numbers.
use nexus_chat.Base.{
  ℕ, ◌≤◌, ◌<◌, ◌≡◌, refl, String, Bool, true, false, ◌&&◌, List, [], ◌∷◌, length, All, ltb, ◌==◌,
  if◌then◌else◌, arith, is_empty_text, trim_space, trim_left, trim_right, is_space,
}
use nexus_chat.Discovery.{
  Profile, Scores, Answers, normalize, rank, has_word, collect, sort_words, insert_word,
}
use nexus_chat.Discovery.Sorting.{DistinctWords, IsFilled, IsSorted}
use nexus_chat.Discovery.Words.{normalize-IsSorted}
use nexus_chat.Discovery.Ranks.{is_ranked, is_rankable, IsDescending, rank-IsDescending}
use nexus_chat.Base.{member}

abbrev same_case : String → String
same_case s = s

-- an order in which all texts stand level
abbrev any_order : String → String → Bool
any_order a b = true

abbrev given : List String
given = " go" ∷ "go" ∷ "" ∷ "art" ∷ []

normalize-IsSorted_example :
    (length (normalize same_case any_order given 10) ≤ 10)
    × (DistinctWords (normalize same_case any_order given 10)
        × (All IsFilled (normalize same_case any_order given 10)
            × IsSorted same_case any_order (normalize same_case any_order given 10)))
normalize-IsSorted_example = normalize-IsSorted same_case any_order given 9 (λ a b e. refl)

few : length (normalize same_case any_order given 10) < 10
unfolding normalize collect sort_words insert_word trim_space trim_left trim_right is_space
    is_empty_text has_word
few = omega arith

abbrev profile : ℕ → Profile
profile id = record {
  user_id = id;
  languages = "en" ∷ [];
  interests = if id == 5 then "chess" ∷ [] else "go" ∷ [];
  avoid_topics = if id == 7 then "go" ∷ [] else [];
  conversation_goal = "";
  enabled = true;
  updated_at = 0;
}

abbrev scores : Scores ℕ
scores = record { ten = 10; weigh = λ i l r g. r; greater = λ a b. ltb b a }

abbrev answers : Answers ℕ
answers = record { profile = λ id. (profile id, false); reputation = λ id. id }

not_both : (a b : ℕ) → ltb b a ≡ true → ltb a b ≡ false
not_both a b h = ground arith

rank-IsDescending_example :
    ((id : ℕ)
      → is_ranked scores answers id (rank scores answers 1 (0 ∷ 1 ∷ 5 ∷ 7 ∷ []))
        ≡ (member id (0 ∷ 1 ∷ 5 ∷ 7 ∷ []) && is_rankable scores answers 1 id))
    × IsDescending scores answers (rank scores answers 1 (0 ∷ 1 ∷ 5 ∷ 7 ∷ []))
rank-IsDescending_example = rank-IsDescending scores answers 1 (0 ∷ 1 ∷ 5 ∷ 7 ∷ []) not_both
