-- ===== src/Base/Texts.antt =====
-- What the services use of Go's package strings, on native texts: TrimSpace, TrimPrefix and Split
-- with a separator of one character, given by its code.
use Prim.Native.Nat.{ℕ}
use Prim.Native.Char.{Char, code}
use Prim.Native.String.append
use Prim.Native.String.{String}
use mathlib.Core.Bool.{Bool, true, ◌&&◌, ◌||◌}
use mathlib.Core.Path.{◌≡◌, refl, subst}
use native.Mathlib.Omega.{arith}
use mathlib.Core.List.{List, [], ◌∷◌}
use mathlib.Core.Bool.{false}
use Prim.Native.String.{◌++◌}
use nexus_chat.Base.Tests.{◌==◌, leb, if◌then◌else◌}

-- unicode.IsSpace
unfoldable pub is_space : ℕ → Bool
is_space c =
    leb 9 c && leb c 13
    || c == 32
    || c == 0x85
    || c == 0xa0
    || c == 0x1680
    || leb 0x2000 c && leb c 0x200a
    || c == 0x2028
    || c == 0x2029
    || c == 0x202f
    || c == 0x205f
    || c == 0x3000

unfoldable pub is_blank : String → Bool
unfolding is_space
is_blank String.[] = true
is_blank (String.◌∷◌ c s) = is_space (code c) && is_blank s

unfoldable pub is_empty_text : String → Bool
is_empty_text String.[] = true
is_empty_text (String.◌∷◌ c s) = false

unfoldable pub trim_left : String → String
unfolding is_space
trim_left String.[] = ""
trim_left (String.◌∷◌ c s) =
    let rest = trim_left s in if is_space (code c) then rest else String.◌∷◌ c s

unfoldable pub trim_right : String → String
unfolding is_space is_empty_text
trim_right String.[] = ""
trim_right (String.◌∷◌ c s) =
    let rest = trim_right s in
    if is_space (code c) && is_empty_text rest then "" else String.◌∷◌ c rest

-- strings.TrimSpace
unfoldable pub trim_space : String → String
unfolding trim_left trim_right
trim_space s = trim_right (trim_left s)

-- the first part of strings.SplitN(s, sep, 2)
unfoldable pub before : ℕ → String → String
before sep String.[] = ""
before sep (String.◌∷◌ c s) =
    let rest = before sep s in if code c == sep then "" else String.◌∷◌ c rest

-- strings.TrimPrefix
unfoldable pub trim_prefix : ℕ → String → String
trim_prefix sep String.[] = ""
trim_prefix sep (String.◌∷◌ c s) = if code c == sep then s else String.◌∷◌ c s

unfoldable put_first : Char → List String → List String
put_first c [] = String.◌∷◌ c "" ∷ []
put_first c (p ∷ ps) = String.◌∷◌ c p ∷ ps

-- strings.Split
unfoldable pub split : ℕ → String → List String
unfolding put_first
split sep String.[] = "" ∷ []
split sep (String.◌∷◌ c s) =
    let rest = split sep s in if code c == sep then "" ∷ rest else put_first c rest

-- no character of the text is the separator
abbrev pub Lacks : ℕ → String → Type 0
Lacks sep String.[] = Unit
Lacks sep (String.◌∷◌ c s) = ((code c == sep) ≡ false) × Lacks sep s

pub split-Lacks : (sep : ℕ) (s : String) → Lacks sep s → split sep s ≡ s ∷ []
unfolding split
split-Lacks sep String.[] h = refl
split-Lacks sep (String.◌∷◌ c s) h = rw (h.0, split-Lacks sep s h.1)

pub split-append :
    (sep : ℕ) (c : Char) (s t : String)
    → (code c == sep) ≡ true
    → Lacks sep s
    → split sep (s ++ String.◌∷◌ c t) ≡ s ∷ split sep t
unfolding split
split-append sep c String.[] t e h = rw (append.nil (String.◌∷◌ c t), e)
split-append sep c (String.◌∷◌ d s) t e h =
    rw (append.cons d s (String.◌∷◌ c t), h.0, split-append sep c s t e h.1)

pub before-append :
    (sep : ℕ) (c : Char) (s t : String)
    → (code c == sep) ≡ true
    → Lacks sep s
    → before sep (s ++ String.◌∷◌ c t) ≡ s
unfolding before
before-append sep c String.[] t e h = rw (append.nil (String.◌∷◌ c t), e)
before-append sep c (String.◌∷◌ d s) t e h =
    rw (append.cons d s (String.◌∷◌ c t), h.0, before-append sep c s t e h.1)

pub trim_prefix-Lacks : (sep : ℕ) (s : String) → Lacks sep s → trim_prefix sep s ≡ s
unfolding trim_prefix
trim_prefix-Lacks sep String.[] h = refl
trim_prefix-Lacks sep (String.◌∷◌ c s) h = rw h.0

-- A text with a character that is no space is not blank.
pub trim_right-append :
    (c : Char) (s t : String)
    → is_space (code c) ≡ false
    → is_empty_text (trim_right (s ++ String.◌∷◌ c t)) ≡ false
unfolding trim_right is_empty_text
trim_right-append c String.[] t e = rw (append.nil (String.◌∷◌ c t), e)
trim_right-append c (String.◌∷◌ d s) t e =
    rw (append.cons d s (String.◌∷◌ c t)) (ground (arith, trim_right-append c s t e))

pub trim_space-append :
    (c : Char) (s t : String)
    → is_space (code c) ≡ false
    → is_empty_text (trim_space (s ++ String.◌∷◌ c t)) ≡ false
unfolding trim_space
trim_space-append c String.[] t e =
    rw (append.nil (String.◌∷◌ c t), e)
      (subst (λ x. is_empty_text (trim_right x) ≡ false) (append.nil (String.◌∷◌ c t))
        (trim_right-append c "" t e))
trim_space-append c (String.◌∷◌ d s) t e =
    rw (append.cons d s (String.◌∷◌ c t)) (first (is_space (code d)) (trim_space-append c s t e))
  where
    first :
        (b : Bool)
        → is_empty_text (trim_right (trim_left (s ++ String.◌∷◌ c t))) ≡ false
        → is_empty_text (
            trim_right
              (if b then trim_left (s ++ String.◌∷◌ c t) else String.◌∷◌ d (s ++ String.◌∷◌ c t)))
          ≡ false
    first true h = h
    first false h =
        subst (λ x. is_empty_text (trim_right x) ≡ false) (append.cons d s (String.◌∷◌ c t))
          (trim_right-append c (String.◌∷◌ d s) t e)
