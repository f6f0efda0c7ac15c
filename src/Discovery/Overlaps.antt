-- ===== src/Discovery/Overlaps.antt =====
-- When overlap of pkg/discovery/service.go counts a word.
use nexus_chat.Base.{
  String, ◌≡◌, refl, sym, ap, ◌∙◌, inl, inr, Bool, true, false, not, ◌&&◌, ◌||◌, List, [], ◌∷◌, ltb,
  arith, is_empty, str_eq, str_eq_iff, Bool-cases,
}
use nexus_chat.Discovery.{has_word, union_with, common_in, overlap}

-- a word of the second list is one of the first
unfoldable pub shares : List String → List String → Bool
shares a [] = false
shares a (v ∷ vs) = has_word v a || shares a vs

-- a word comes twice
unfoldable pub repeats : List String → Bool
repeats [] = false
repeats (v ∷ vs) = has_word v vs || repeats vs

str_eq-sym : (s t : String) → str_eq s t ≡ str_eq t s
str_eq-sym s t = elim (Bool-cases (str_eq s t)) [
  | inl e ↦ e ∙ sym ((str_eq_iff t s).1 (sym ((str_eq_iff s t).0 e)))
  | inr e ↦
      ground (arith, e, λ (p : str_eq t s ≡ true). (str_eq_iff s t).1 (sym ((str_eq_iff t s).0 p)))
]

shares-more : (v : String) (u vs : List String) → shares (v ∷ u) vs ≡ (has_word v vs || shares u vs)
unfolding shares has_word
shares-more v u [] = refl
shares-more v u (w ∷ vs) = ground (arith, shares-more v u vs, str_eq-sym v w)

common_in-shares : (u b : List String) → ltb 0 (common_in u b) ≡ (shares u b || repeats b)
unfolding common_in shares repeats
common_in-shares u [] = refl
common_in-shares u (v ∷ vs) = elim (Bool-cases (has_word v u)) [
  | inl e ↦ rw e (ground arith)
  | inr e ↦ rw e (common_in-shares (v ∷ u) vs ∙ ground (arith, shares-more v u vs))
]

has_word-union_with :
    (w : String) (u a : List String) → has_word w (union_with u a) ≡ (has_word w u || has_word w a)
unfolding union_with has_word
has_word-union_with w u [] = ground arith
has_word-union_with w u (v ∷ vs) = elim (Bool-cases (has_word v u)) [
  | inl e ↦ rw e (
      has_word-union_with w u vs
      ∙ ground (
        arith,
        e,
        λ (p : str_eq v w ≡ true). sym (ap (λ x. has_word x u) ((str_eq_iff v w).0 p)) ∙ e,
      ))
  | inr e ↦ rw e (has_word-union_with w (v ∷ u) vs ∙ ground arith)
]

shares-union_with : (a b : List String) → shares (union_with [] a) b ≡ shares a b
unfolding shares has_word
shares-union_with a [] = refl
shares-union_with a (v ∷ vs) =
    ap (λ x. x || shares (union_with [] a) vs) (has_word-union_with v [] a)
    ∙ ap (λ x. has_word v a || x) (shares-union_with a vs)

-- There is a first list, and a word of the second is in it or comes twice.
pub overlap-shares :
    (a b : List String) → ltb 0 (overlap a b).0 ≡ (not (is_empty a) && (shares a b || repeats b))
unfolding overlap shares repeats
overlap-shares [] b = refl
overlap-shares (x ∷ a) [] = refl
overlap-shares (x ∷ a) (y ∷ b) =
    common_in-shares (union_with [] (x ∷ a)) (y ∷ b)
    ∙ ap (λ s. s || repeats (y ∷ b)) (shares-union_with (x ∷ a) (y ∷ b))
