-- ===== src/Storage/Rooms/Codes.antt =====
-- The invite codes that newInviteCode of pkg/chat/repo.go makes.
use Prim.Native.Char.{Char}
use Prim.Native.String.{String}
use nexus_chat.Base.{◌≡◌, refl, ℕ, zero, suc, ◌<◌, Option, some, arith}
use nexus_chat.Storage.Rooms.{alphabet, char_at, code_chars, new_invite_code}

-- a text of `n` characters of the alphabet
abbrev IsWord : ℕ → String → Type 0
IsWord zero String.[] = Unit
IsWord zero (String.◌∷◌ c s) = zero ≡ suc zero
IsWord (suc n) String.[] = zero ≡ suc zero
IsWord (suc n) (String.◌∷◌ c s) = ((i : ℕ) × (char_at i alphabet ≡ some c)) × IsWord n s

text_length : String → ℕ
text_length String.[] = 0
text_length (String.◌∷◌ c s) = suc (text_length s)

char_at-below : (n : ℕ) (s : String) → n < text_length s → (c : Char) × (char_at n s ≡ some c)
unfolding char_at text_length
char_at-below n String.[] h = absurd (omega arith)
char_at-below zero (String.◌∷◌ c s) h = (c, refl)
char_at-below (suc n) (String.◌∷◌ c s) h = char_at-below n s (omega arith)

letter : (n : ℕ) → n < 32 → (c : Char) × (char_at n alphabet ≡ some c)
unfolding text_length
letter n h = char_at-below n alphabet h

module _ (draw : ℕ → Option ℕ) (fair : (i : ℕ) → (n : ℕ) × ((draw i ≡ some n) × (n < 32))) where
  code_chars-IsWord :
      (left i : ℕ) → (s : String) × ((code_chars draw left i ≡ some s) × IsWord left s)
  unfolding code_chars
  code_chars-IsWord zero i = ("", (refl, tt))
  code_chars-IsWord (suc left) i =
      let d = fair i in
      let c = letter d.0 d.1.1 in
      let rest = code_chars-IsWord left (suc i) in
      (String.◌∷◌ c.0 rest.0, (rw (d.1.0, c.1, rest.1.0) refl, ((d.0, c.1), rest.1.1)))

  -- Where the random numbers are below their bound: an invite code is made, without an index out of
  -- range, and consists of eight characters of the alphabet.
  pub new_invite_code-IsWord : (s : String) × ((new_invite_code draw ≡ some s) × IsWord 8 s)
  unfolding new_invite_code
  new_invite_code-IsWord = code_chars-IsWord 8 0
