-- ===== src/Base/Assoc.antt =====
-- Maps and sets with number keys, as lists: Go's `map[uint64]V` and `map[K]struct{}`.
use Prim.Native.Nat.{ℕ}
use mathlib.Core.Path.{◌≡◌, refl}
use mathlib.Core.Bool.{Bool, true, false, not, ◌&&◌, ◌||◌}
use mathlib.Core.Option.{Option, none, some}
use mathlib.Core.List.{List, [], ◌∷◌}
use native.Mathlib.Omega.{arith}
use nexus_chat.Base.Tests.{◌==◌, if◌then◌else◌, All}

abbrev pub Keyed {ℓ} : Type ℓ → Type ℓ
Keyed V = List (ℕ × V)

module _ {ℓ} {V : Type ℓ} where
  -- m[k]
  unfoldable pub lookup : ℕ → Keyed V → Option V
  lookup k [] = none
  lookup k ((j, v) ∷ m) = if j == k then some v else lookup k m

  -- delete(m, k)
  unfoldable pub erase : ℕ → Keyed V → Keyed V
  erase k [] = []
  erase k ((j, v) ∷ m) = let rest = erase k m in if j == k then rest else (j, v) ∷ rest

  -- m[k] = v
  unfoldable pub put : ℕ → V → Keyed V → Keyed V
  put k v m = (k, v) ∷ erase k m

  pub lookup_head :
      (k j : ℕ) (v : V) (m : Keyed V) → (j == k) ≡ true → lookup k ((j, v) ∷ m) ≡ some v
  unfolding lookup
  lookup_head k j v m e = rw e

  pub lookup_tail :
      (k j : ℕ) (v : V) (m : Keyed V) → (j == k) ≡ false → lookup k ((j, v) ∷ m) ≡ lookup k m
  unfolding lookup
  lookup_tail k j v m e = rw e

  pub lookup-erase :
      (k j : ℕ) (m : Keyed V) → lookup j (erase k m) ≡ (if k == j then none else lookup j m)
  unfolding lookup erase
  lookup-erase k j [] = ground arith
  lookup-erase k j ((i, v) ∷ m) = ground (arith, lookup-erase k j m)

  pub lookup-put :
      (k j : ℕ) (v : V) (m : Keyed V)
      → lookup j (put k v m) ≡ (if k == j then some v else lookup j m)
  unfolding put lookup
  lookup-put k j v m = ground (arith, lookup-erase k j m)

  -- A property of all entries outlives a deletion.
  pub erase-Keyed {κ} : (P : ℕ × V → Type κ) (k : ℕ) (m : Keyed V) → All P m → All P (erase k m)
  unfolding erase
  erase-Keyed P k [] h = tt
  erase-Keyed P k ((j, v) ∷ m) h = keep (j == k) (h.0, erase-Keyed P k m h.1)
    where
      keep :
          (b : Bool)
          → P (j, v) × All P (erase k m)
          → All P (if b then erase k m else ((j, v) ∷ erase k m))
      keep true x = x.1
      keep false x = x

  -- The key `k` has no entry.
  abbrev pub KeysFresh : ℕ → Keyed V → Type 0
  KeysFresh k [] = Unit
  KeysFresh k ((j, v) ∷ m) = ((j == k) ≡ false) × KeysFresh k m

  pub erased-KeysFresh : (k : ℕ) (m : Keyed V) → KeysFresh k (erase k m)
  unfolding erase
  erased-KeysFresh k [] = tt
  erased-KeysFresh k ((j, v) ∷ m) = ground (arith, erased-KeysFresh k m)

  pub erase-KeysFresh : (i k : ℕ) (m : Keyed V) → KeysFresh i m → KeysFresh i (erase k m)
  unfolding erase
  erase-KeysFresh i k [] h = tt
  erase-KeysFresh i k ((j, v) ∷ m) h = ground (arith, erase-KeysFresh i k m)

  pub KeysFresh-lookup : (k : ℕ) (m : Keyed V) → KeysFresh k m → lookup k m ≡ none
  unfolding lookup
  KeysFresh-lookup k [] h = refl
  KeysFresh-lookup k ((j, v) ∷ m) h = ground (arith, KeysFresh-lookup k m)

unfoldable pub member : ℕ → List ℕ → Bool
member a [] = false
member a (x ∷ xs) = x == a || member a xs

unfoldable pub discard : ℕ → List ℕ → List ℕ
discard a [] = []
discard a (x ∷ xs) = let rest = discard a xs in if x == a then rest else x ∷ rest

pub member_cons : (a x : ℕ) (xs : List ℕ) → member a (x ∷ xs) ≡ (x == a || member a xs)
unfolding member
member_cons a x xs = refl

pub member-discard :
    (a b : ℕ) (xs : List ℕ) → member b (discard a xs) ≡ (not (a == b) && member b xs)
unfolding member discard
member-discard a b [] = ground arith
member-discard a b (x ∷ xs) = ground (arith, member-discard a b xs)

abbrev pub Fresh : ℕ → List ℕ → Type 0
Fresh a [] = Unit
Fresh a (x ∷ xs) = ((x == a) ≡ false) × Fresh a xs

abbrev pub Distinct : List ℕ → Type 0
Distinct [] = Unit
Distinct (x ∷ xs) = Fresh x xs × Distinct xs

pub Fresh-not_member : (a : ℕ) (xs : List ℕ) → Fresh a xs → member a xs ≡ false
unfolding member
Fresh-not_member a [] h = refl
Fresh-not_member a (x ∷ xs) h = ground (arith, Fresh-not_member a xs)

pub discard-Fresh : (a b : ℕ) (xs : List ℕ) → Fresh a xs → Fresh a (discard b xs)
unfolding discard
discard-Fresh a b [] h = tt
discard-Fresh a b (x ∷ xs) h = ground (arith, discard-Fresh a b xs)

pub discard-Distinct : (b : ℕ) (xs : List ℕ) → Distinct xs → Distinct (discard b xs)
unfolding discard
discard-Distinct b [] h = tt
discard-Distinct b (x ∷ xs) h = ground (arith, discard-Distinct b xs, discard-Fresh x b xs)
