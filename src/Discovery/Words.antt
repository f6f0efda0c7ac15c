-- ===== src/Discovery/Words.antt =====
-- What normalize of pkg/discovery/service.go makes of a list of words.
use nexus_chat.Base.{
  ℕ, suc, ◌≤◌, ◌<◌, ◌≡◌, refl, ap, ◌∙◌, subst, String, Bool, true, false, not, ◌&&◌, ◌||◌, List, [],
  ◌∷◌, ◌++◌, ◌==◌, ==_iff, if◌then◌else◌, length, All, str_eq, str_eq_iff, arith, is_empty_text,
}
use nexus_chat.Discovery.{has_word, clean, collect, normalize}
use nexus_chat.Discovery.Sorting.{
  DistinctWords, IsFilled, str_eq-false, IsSorted, has_word-sort_words, length-sort_words,
  sort_words-All, sort_words-DistinctWords, sort_words-IsSorted,
}

has_word-append :
    (w y : String) (xs : List String) → has_word y (xs ++ (w ∷ [])) ≡ (has_word y xs || str_eq w y)
unfolding has_word
has_word-append w y [] = ground arith
has_word-append w y (x ∷ xs) = ground (arith, has_word-append w y xs)

DistinctWords-append :
    (w : String) (xs : List String)
    → has_word w xs ≡ false
    → DistinctWords xs
    → DistinctWords (xs ++ (w ∷ []))
unfolding has_word
DistinctWords-append w [] n d = (refl, tt)
DistinctWords-append w (x ∷ xs) n d =
    let apart : str_eq w x ≡ false = str_eq-false x w (ground (arith, n)) in
    (has_word-append w x xs ∙ rw (d.0, apart), DistinctWords-append w xs (ground (arith, n)) d.1)

All-append :
    (P : String → Type 0) (w : String) (xs : List String) → P w → All P xs → All P (xs ++ (w ∷ []))
All-append P w [] p a = (p, tt)
All-append P w (x ∷ xs) p a = (a.0, All-append P w xs p a.1)

length-grown : (w : String) (xs : List String) → length (xs ++ (w ∷ [])) ≡ suc (length xs)
length-grown w [] = omega arith
length-grown w (x ∷ xs) = omega (arith, length-grown w xs)

module _ (lower : String → String) (in_order : String → String → Bool) where
  -- what the loop has at every round
  record IsCollected (max : ℕ) (xs : List String) : Type 0 where
    short : length xs ≤ max
    distinct : DistinctWords xs
    filled : All IsFilled xs

  collect-IsCollected :
      (max : ℕ) (values result : List String)
      → length result < max
      → IsCollected max result
      → IsCollected max (collect lower in_order max values result)
  unfolding collect
  collect-IsCollected max [] result l c = c
  collect-IsCollected max (v ∷ values) result l c =
      word (is_empty_text w) (has_word w result) (length grown == max) refl refl refl
        (collect-IsCollected max values result l c) (λ k. collect-IsCollected max values grown k)
    where
      w : String
      w = clean lower in_order v

      grown : List String
      grown = result ++ (w ∷ [])

      word :
          (empty held full : Bool)
          → is_empty_text w ≡ empty
          → has_word w result ≡ held
          → (length grown == max) ≡ full
          → IsCollected max (collect lower in_order max values result)
          → (length grown < max
              → IsCollected max grown
              → IsCollected max (collect lower in_order max values grown))
          → IsCollected max (
              if empty
              then collect lower in_order max values result
              else if held
              then collect lower in_order max values result
              else if full
              then grown
              else collect lower in_order max values grown)
      word true held full p q r skip take = skip
      word false true full p q r skip take = skip
      word false false true p q r skip take = record {
        short = omega (arith, length-grown w result, l);
        distinct = DistinctWords-append w result q c.distinct;
        filled = All-append IsFilled w result p c.filled;
      }
      word false false false p q r skip take =
          take (ground (arith, ==_iff (length grown) max, length-grown w result, l)) (record {
            short = omega (arith, length-grown w result, l);
            distinct = DistinctWords-append w result q c.distinct;
            filled = All-append IsFilled w result p c.filled;
          })

-- For a limit that is not 0 and a total order of texts: normalize makes at most as many words as the
-- limit says, none twice, none empty, each in order with the one after it.
pub normalize-IsSorted :
    (lower : String → String) (in_order : String → String → Bool) (values : List String) (n : ℕ)
    → ((a b : String) → in_order a b ≡ false → in_order b a ≡ true)
    → (length (normalize lower in_order values (suc n)) ≤ suc n)
      × (DistinctWords (normalize lower in_order values (suc n))
          × (All IsFilled (normalize lower in_order values (suc n))
              × IsSorted lower in_order (normalize lower in_order values (suc n))))
unfolding normalize
normalize-IsSorted lower in_order values n total =
    let words = collect lower in_order (suc n) values [] in
    let c =
      collect-IsCollected lower in_order (suc n) values [] (omega arith)
        (record { short = omega arith; distinct = tt; filled = tt }) in
    (
      omega (arith, length-sort_words lower in_order words, c.short),
      (
        sort_words-DistinctWords lower in_order words c.distinct,
        (
          sort_words-All lower in_order IsFilled words c.filled,
          sort_words-IsSorted lower in_order total words,
        ),
      ),
    )

-- one of the values is this word, once it is cleaned
abbrev pub is_given : (String → String) → (String → String → Bool) → String → List String → Bool
is_given lower in_order y [] = false
is_given lower in_order y (v ∷ values) =
    str_eq (clean lower in_order v) y || is_given lower in_order y values

module _ (lower : String → String) (in_order : String → String → Bool) (max : ℕ) (y : String) where
  same_word : (w : String) → str_eq w y ≡ true → w ≡ y
  same_word w e = (str_eq_iff w y).0 e

  -- a loop that ends below the limit has gone through all values
  collect-has_word :
      (values result : List String)
      → length (collect lower in_order max values result) < max
      → has_word y (collect lower in_order max values result)
        ≡ (has_word y result || (not (is_empty_text y) && is_given lower in_order y values))
  unfolding collect
  collect-has_word [] result l = ground arith
  collect-has_word (v ∷ values) result l =
      word (is_empty_text w) (has_word w result) (length grown == max) refl refl refl l
        (collect-has_word values result) (collect-has_word values grown)
    where
      w : String
      w = clean lower in_order v

      grown : List String
      grown = result ++ (w ∷ [])

      skip : List String
      skip = collect lower in_order max values result

      take : List String
      take = collect lower in_order max values grown

      wanted : Bool
      wanted =
          has_word y result
          || (not (is_empty_text y) && (str_eq w y || is_given lower in_order y values))

      word :
          (empty held full : Bool)
          → is_empty_text w ≡ empty
          → has_word w result ≡ held
          → (length grown == max) ≡ full
          → length (if empty then skip else if held then skip else if full then grown else take)
            < max
          → (length skip < max
              → has_word y skip ≡ (
                  has_word y result || (not (is_empty_text y) && is_given lower in_order y values)))
          → (length take < max
              → has_word y take
                ≡ (has_word y grown || (not (is_empty_text y) && is_given lower in_order y values)))
          → has_word y (if empty then skip else if held then skip else if full then grown else take)
            ≡ wanted
      word true held full p q r l s t =
          s l ∙ ground (arith, p, λ (e : str_eq w y ≡ true). ap is_empty_text (same_word w e))
      word false true full p q r l s t =
          s l
          ∙ ground
              (arith, q, λ (e : str_eq w y ≡ true). ap (λ z. has_word z result) (same_word w e))
      word false false true p q r l s t = absurd (ground (arith, ==_iff (length grown) max))
      word false false false p q r l s t =
          t l
          ∙ ground (
            arith,
            p,
            has_word-append w y result,
            λ (e : str_eq w y ≡ true). ap is_empty_text (same_word w e),
          )

-- Where normalize makes fewer words than the limit says, a text is one of them exactly if it is not
-- empty and is one of the values, trimmed and in lower case.
pub normalize-is_given :
    (lower : String → String) (in_order : String → String → Bool) (values : List String) (max : ℕ)
    (y : String)
    → length (normalize lower in_order values max) < max
    → has_word y (normalize lower in_order values max)
      ≡ (not (is_empty_text y) && is_given lower in_order y values)
unfolding normalize has_word
normalize-is_given lower in_order values max y l =
    let words = collect lower in_order max values [] in
    has_word-sort_words lower in_order y words
    ∙ collect-has_word lower in_order max y values []
        (subst (λ n. n < max) (length-sort_words lower in_order words) l)
