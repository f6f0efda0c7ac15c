-- ===== src/Discovery/Sorting.antt =====
-- sort.Strings, as normalize of pkg/discovery/service.go uses it: what it keeps of a list of words.
use nexus_chat.Base.{
  suc, ◌≡◌, refl, ap, ◌∙◌, inl, inr, String, Bool, true, false, ◌||◌, List, [], ◌∷◌, if◌then◌else◌,
  length, All, str_eq, str_eq_iff, arith, Bool-cases, is_empty_text,
}
use nexus_chat.Discovery.{has_word, insert_word, sort_words}

abbrev pub DistinctWords : List String → Type 0
DistinctWords [] = Unit
DistinctWords (x ∷ xs) = (has_word x xs ≡ false) × DistinctWords xs

abbrev pub IsFilled : String → Type 0
IsFilled w = is_empty_text w ≡ false

pub str_eq-false : (x y : String) → str_eq x y ≡ false → str_eq y x ≡ false
str_eq-false x y h = ground (arith, str_eq_iff x y, str_eq_iff y x)

module _ (lower : String → String) (in_order : String → String → Bool) where
  pub has_word-insert_word :
      (w y : String) (xs : List String)
      → has_word y (insert_word lower in_order w xs) ≡ (str_eq w y || has_word y xs)
  unfolding has_word insert_word
  has_word-insert_word w y [] = refl
  has_word-insert_word w y (x ∷ xs) = ground (arith, has_word-insert_word w y xs)

  pub DistinctWords-insert_word :
      (w : String) (xs : List String)
      → has_word w xs ≡ false
      → DistinctWords xs
      → DistinctWords (insert_word lower in_order w xs)
  unfolding has_word insert_word
  DistinctWords-insert_word w [] n d = (refl, tt)
  DistinctWords-insert_word w (x ∷ xs) n d =
      placed (in_order w x) (DistinctWords-insert_word w xs (ground (arith, n)) d.1)
    where
      placed :
          (b : Bool)
          → DistinctWords (insert_word lower in_order w xs)
          → DistinctWords (if b then w ∷ x ∷ xs else x ∷ insert_word lower in_order w xs)
      placed true r = (n, d)
      placed false r =
          (has_word-insert_word w x xs ∙ rw (d.0, str_eq-false x w (ground (arith, n))), r)

  pub All-insert_word :
      (P : String → Type 0) (w : String) (xs : List String)
      → P w
      → All P xs
      → All P (insert_word lower in_order w xs)
  unfolding insert_word
  All-insert_word P w [] p a = (p, tt)
  All-insert_word P w (x ∷ xs) p a = placed (in_order w x) (All-insert_word P w xs p a.1)
    where
      placed :
          (b : Bool)
          → All P (insert_word lower in_order w xs)
          → All P (if b then w ∷ x ∷ xs else x ∷ insert_word lower in_order w xs)
      placed true r = (p, a)
      placed false r = (a.0, r)

  pub length-insert_word :
      (w : String) (xs : List String) → length (insert_word lower in_order w xs) ≡ suc (length xs)
  unfolding insert_word
  length-insert_word w [] = refl
  length-insert_word w (x ∷ xs) = ground (arith, length-insert_word w xs)

  -- each word is in order with the one after it
  abbrev pub IsSorted : List String → Type 0
  IsSorted [] = Unit
  IsSorted (x ∷ []) = Unit
  IsSorted (x ∷ y ∷ ys) = (in_order x y ≡ true) × IsSorted (y ∷ ys)

  module _ (total : (a b : String) → in_order a b ≡ false → in_order b a ≡ true) where
    insert_word-IsSorted :
        (w : String) (xs : List String) → IsSorted xs → IsSorted (insert_word lower in_order w xs)
    unfolding insert_word
    insert_word-IsSorted w [] s = tt
    insert_word-IsSorted w (x ∷ []) s = elim (Bool-cases (in_order w x)) [
      | inl e ↦ rw e (e, tt)
      | inr e ↦ rw e (total w x e, tt)
    ]
    insert_word-IsSorted w (x ∷ y ∷ ys) s = elim (Bool-cases (in_order w x)) [
      | inl e ↦ rw e (e, s)
      | inr e ↦ rw e (next (in_order w y) (total w x e) (insert_word-IsSorted w (y ∷ ys) s.1))
    ]
      where
        next :
            (b : Bool)
            → in_order x w ≡ true
            → IsSorted (if b then w ∷ y ∷ ys else y ∷ insert_word lower in_order w ys)
            → IsSorted (x ∷ (if b then w ∷ y ∷ ys else y ∷ insert_word lower in_order w ys))
        next true e r = (e, r)
        next false e r = (s.0, r)

    pub sort_words-IsSorted : (xs : List String) → IsSorted (sort_words lower in_order xs)
    unfolding sort_words
    sort_words-IsSorted [] = tt
    sort_words-IsSorted (x ∷ xs) =
        insert_word-IsSorted x (sort_words lower in_order xs) (sort_words-IsSorted xs)

  pub has_word-sort_words :
      (y : String) (xs : List String) → has_word y (sort_words lower in_order xs) ≡ has_word y xs
  unfolding has_word sort_words
  has_word-sort_words y [] = refl
  has_word-sort_words y (x ∷ xs) =
      has_word-insert_word x y (sort_words lower in_order xs)
      ∙ ap (λ b. str_eq x y || b) (has_word-sort_words y xs)

  pub length-sort_words : (xs : List String) → length (sort_words lower in_order xs) ≡ length xs
  unfolding sort_words
  length-sort_words [] = refl
  length-sort_words (x ∷ xs) =
      length-insert_word x (sort_words lower in_order xs) ∙ ap suc (length-sort_words xs)

  pub sort_words-DistinctWords :
      (xs : List String) → DistinctWords xs → DistinctWords (sort_words lower in_order xs)
  unfolding sort_words
  sort_words-DistinctWords [] d = tt
  sort_words-DistinctWords (x ∷ xs) d =
      DistinctWords-insert_word x (sort_words lower in_order xs) (has_word-sort_words x xs ∙ d.0)
        (sort_words-DistinctWords xs d.1)

  pub sort_words-All :
      (P : String → Type 0) (xs : List String) → All P xs → All P (sort_words lower in_order xs)
  unfolding sort_words
  sort_words-All P [] a = tt
  sort_words-All P (x ∷ xs) a =
      All-insert_word P x (sort_words lower in_order xs) a.0 (sort_words-All P xs a.1)
