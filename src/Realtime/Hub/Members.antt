-- ===== src/Realtime/Hub/Members.antt =====
-- Which clients the hub of pkg/realtime/hub.go holds: the nested map as a set of addresses.
use nexus_chat.Base.{
  ℕ, ◌≡◌, refl, ◌↔◌, inl, inr, Bool, true, false, not, ◌&&◌, ◌||◌, List, [], ◌∷◌, Option, none,
  some, arith, ◌==◌, if◌then◌else◌, is_empty, All, Keyed, KeysFresh-lookup, lookup, erase, put,
  member, discard, lookup-erase, lookup-put, member-discard, member_cons, Fresh, Distinct,
  discard-Distinct, Bool-cases, ==_iff, subst, KeysFresh, erase-KeysFresh, erased-KeysFresh,
  erase-Keyed, Option-cases,
}
use mathlib.Core.Bool.{false≢true}
use nexus_chat.Realtime.Hub.{Hub, or_nil, clients_of, add, remove, remove_entry, online}

none-ne-some {ℓ} : {A : Type ℓ} {a : A} → none ≡ some a → ⊥
none-ne-some e = cc

some_inj {ℓ} : {A : Type ℓ} {a b : A} → some a ≡ some b → a ≡ b
some_inj e = cc

-- The hub holds the address `p`.
abbrev pub holds : Hub → ℕ → Bool
holds h p = member p (clients_of h (h.client p).user_id)

-- An entry is not empty, lists no address twice, and its clients are of its user and open.
abbrev pub EntryIsValid : Hub → ℕ × List ℕ → Type 0
EntryIsValid h (u, ps) =
    (is_empty ps ≡ false)
    × Distinct ps
    × All (λ p. ((h.client p).user_id ≡ u) × (h.closed p ≡ false)) ps

abbrev pub KeysDistinct {ℓ} : {V : Type ℓ} → Keyed V → Type 0
KeysDistinct [] = Unit
KeysDistinct ((u, v) ∷ m) = KeysFresh u m × KeysDistinct m

pub record IsValid (h : Hub) : Type 0 where
  pub entries : All (EntryIsValid h) h.clients
  pub keys : KeysDistinct h.clients

pub erase-KeysDistinct {ℓ} :
    {V : Type ℓ} (k : ℕ) (m : Keyed V) → KeysDistinct m → KeysDistinct (erase k m)
unfolding erase
erase-KeysDistinct k [] h = tt
erase-KeysDistinct k ((j, v) ∷ m) h = ground (arith, erase-KeysDistinct k m, erase-KeysFresh j k m)

-- The entry that a lookup finds is valid.
pub lookup-valid :
    (h : Hub) (u : ℕ) (m : Keyed (List ℕ)) (ps : List ℕ)
    → All (EntryIsValid h) m
    → lookup u m ≡ some ps
    → EntryIsValid h (u, ps)
unfolding lookup
lookup-valid h u [] ps v e = absurd (none-ne-some e)
lookup-valid h u ((j, qs) ∷ m) ps v e = elim (Bool-cases (j == u)) [
  | inl same ↦
      subst (λ (x : ℕ). EntryIsValid h (x, ps)) ((==_iff j u).0 same)
        (subst (λ (x : List ℕ). EntryIsValid h (j, x)) (some_inj (rw same at e)) v.0)
  | inr other ↦ lookup-valid h u m ps v.1 (rw other at e)
]

-- The clients of a user are distinct, of that user and open.
pub clients_of-valid :
    (h : Hub) (u : ℕ)
    → IsValid h
    → Distinct (clients_of h u)
      × All (λ p. ((h.client p).user_id ≡ u) × (h.closed p ≡ false)) (clients_of h u)
unfolding clients_of
clients_of-valid h u v = elim (Option-cases (lookup u h.clients)) [
  | inl e ↦ rw e (tt, tt)
  | inr (ps, e) ↦ rw e (let x = lookup-valid h u h.clients ps v.entries e in (x.1, x.2))
]

pub clients_of-add :
    (p : ℕ) (h : Hub) (j : ℕ)
    → let u = (h.client p).user_id in
      clients_of (add p h) j ≡ (if u == j then p ∷ discard p (clients_of h u) else clients_of h j)
unfolding add
clients_of-add p h j = ground (
  arith,
  lookup-put (h.client p).user_id j (p ∷ discard p (clients_of h (h.client p).user_id)) h.clients,
)

clients_of-remove_entry :
    (p u j : ℕ) (o : Option (List ℕ)) (h : Hub)
    → lookup u h.clients ≡ o
    → clients_of (remove_entry p u o h) j
      ≡ (if u == j then discard p (clients_of h j) else clients_of h j)
unfolding remove_entry clients_of discard
clients_of-remove_entry p u j none h e = ground (arith, ==_iff u j)
clients_of-remove_entry p u j (some ps) h e =
    ground (arith, ==_iff u j, lookup-erase u j h.clients, lookup-put u j (discard p ps) h.clients)

pub clients_of-remove :
    (p : ℕ) (h : Hub) (j : ℕ)
    → clients_of (remove p h) j
      ≡ (if (h.client p).user_id == j then discard p (clients_of h j) else clients_of h j)
unfolding remove
clients_of-remove p h j =
    let u = (h.client p).user_id in clients_of-remove_entry p u j (lookup u h.clients) h refl

discard-All {κ} : (P : ℕ → Type κ) (p : ℕ) (ps : List ℕ) → All P ps → All P (discard p ps)
unfolding discard
discard-All P p [] a = tt
discard-All P p (q ∷ qs) a = keep (q == p) (a.0, discard-All P p qs a.1)
  where
    keep :
        (b : Bool)
        → P q × All P (discard p qs)
        → All P (if b then discard p qs else (q ∷ discard p qs))
    keep true x = x.1
    keep false x = x

discarded-Fresh : (p : ℕ) (ps : List ℕ) → Fresh p (discard p ps)
unfolding discard
discarded-Fresh p [] = tt
discarded-Fresh p (q ∷ qs) = ground (arith, discarded-Fresh p qs)

put-IsValid :
    (u : ℕ) (ps : List ℕ) (h : Hub)
    → EntryIsValid h (u, ps)
    → IsValid h
    → IsValid (record h { clients = put u ps h.clients })
unfolding put
put-IsValid u ps h ok v = record {
  entries = (ok, erase-Keyed (EntryIsValid h) u h.clients v.entries);
  keys = (erased-KeysFresh u h.clients, erase-KeysDistinct u h.clients v.keys);
}

-- Add keeps the hub valid, at an address whose channel is open.
pub add-IsValid : (p : ℕ) (h : Hub) → h.closed p ≡ false → IsValid h → IsValid (add p h)
unfolding add
add-IsValid p h is_open v =
    let u = (h.client p).user_id in
    let c = clients_of-valid h u v in
    put-IsValid u (p ∷ discard p (clients_of h u)) h
      (
        refl,
        (discarded-Fresh p (clients_of h u), discard-Distinct p (clients_of h u) c.0),
        ((refl, is_open), discard-All _ p (clients_of h u) c.1),
      )
      v

remove_entry-IsValid :
    (p u : ℕ) (o : Option (List ℕ)) (h : Hub)
    → lookup u h.clients ≡ o
    → IsValid h
    → IsValid (remove_entry p u o h)
unfolding remove_entry
remove_entry-IsValid p u none h e v = v
remove_entry-IsValid p u (some ps) h e v = elim (Bool-cases (is_empty (discard p ps))) [
  | inl gone ↦ rw gone (record {
    entries = erase-Keyed (EntryIsValid h) u h.clients v.entries;
    keys = erase-KeysDistinct u h.clients v.keys;
  })
  | inr left ↦ rw left (
      let x = lookup-valid h u h.clients ps v.entries e in
      put-IsValid u (discard p ps) h (left, discard-Distinct p ps x.1, discard-All _ p ps x.2) v)
]

-- Remove keeps the hub valid: no empty entry stays behind.
pub remove-IsValid : (p : ℕ) (h : Hub) → IsValid h → IsValid (remove p h)
unfolding remove
remove-IsValid p h v =
    let u = (h.client p).user_id in remove_entry-IsValid p u (lookup u h.clients) h refl v

-- Add and Remove as operations on a set of addresses: after Add the hub holds exactly what it held
-- and the new address, after Remove exactly what it held but the old one.
pub holds-add-remove :
    (p q : ℕ) (h : Hub)
    → (holds (add p h) q ≡ (p == q || holds h q))
      × (holds (remove p h) q ≡ (not (p == q) && holds h q))
unfolding add remove
holds-add-remove p q h =
    let u = (h.client p).user_id in
    let j = (h.client q).user_id in
    let ps = clients_of h u in
    (
      ground (
        arith,
        clients_of-add p h j,
        member_cons q p (discard p ps),
        member-discard p q ps,
        ==_iff p q,
        ==_iff u j,
      ),
      ground (
        arith,
        clients_of-remove p h j,
        member-discard p q (clients_of h j),
        ==_iff p q,
        ==_iff u j,
      ),
    )

first_member :
    (h : Hub) (u : ℕ) (ps : List ℕ)
    → All (λ p. ((h.client p).user_id ≡ u) × (h.closed p ≡ false)) ps
    → not (is_empty ps) ≡ true
    → (p : ℕ) × ((h.client p).user_id ≡ u) × (member p ps ≡ true)
unfolding member
first_member h u [] a n = cc
first_member h u (p ∷ ps) a n = (p, a.0.0, ground (arith, ==_iff p p))

not_empty_of_member : (p : ℕ) (ps : List ℕ) → member p ps ≡ true → not (is_empty ps) ≡ true
unfolding member
not_empty_of_member p [] m = cc
not_empty_of_member p (q ∷ qs) m = refl

-- In a valid hub a user is online exactly when the hub holds an address of that user.
pub online_iff :
    (u : ℕ) (h : Hub)
    → IsValid h
    → (online u h ≡ true) ↔ ((p : ℕ) × ((h.client p).user_id ≡ u) × (holds h p ≡ true))
unfolding online
online_iff u h v = (
  λ n.
      let (p, owned, m) = first_member h u (clients_of h u) (clients_of-valid h u v).1 n in
      (p, owned, rw owned m),
  λ x. not_empty_of_member x.0 (clients_of h u) (rw x.1 at x.2),
)

pub All-member {κ} : (P : ℕ → Type κ) (q : ℕ) (ps : List ℕ) → All P ps → member q ps ≡ true → P q
unfolding member
All-member P q [] a m = absurd (false≢true m)
All-member P q (p ∷ ps) a m = elim (Bool-cases (p == q)) [
  | inl e ↦ subst P ((==_iff p q).0 e) a.0
  | inr n ↦ All-member P q ps a.1 (rw n at m)
]

pub owner_of_member :
    (h : Hub) (u q : ℕ) (ps : List ℕ)
    → All (λ p. ((h.client p).user_id ≡ u) × (h.closed p ≡ false)) ps
    → member q ps ≡ true
    → (h.client q).user_id ≡ u
owner_of_member h u q ps a m =
    (All-member (λ p. ((h.client p).user_id ≡ u) × (h.closed p ≡ false)) q ps a m).0

pub each_open :
    (h : Hub) (u : ℕ) (ps : List ℕ)
    → All (λ p. ((h.client p).user_id ≡ u) × (h.closed p ≡ false)) ps
    → All (λ p. h.closed p ≡ false) ps
each_open h u [] a = tt
each_open h u (p ∷ ps) a = (a.0.1, each_open h u ps a.1)

-- No entry lists the address.
abbrev pub Unlisted : ℕ → Keyed (List ℕ) → Type 0
Unlisted p m = All (λ e. member p e.1 ≡ false) m

absent_entries :
    (h : Hub) (p : ℕ) (m : Keyed (List ℕ))
    → All (EntryIsValid h) m
    → KeysDistinct m
    → member p (or_nil (lookup (h.client p).user_id m)) ≡ false
    → Unlisted p m
unfolding lookup member
absent_entries h p [] v k n = tt
absent_entries h p ((j, ps) ∷ m) v k n = elim (Bool-cases (j == (h.client p).user_id)) [
  | inl e ↦
      let gone = subst (λ x. lookup x m ≡ none) ((==_iff j _).0 e) (KeysFresh-lookup j m k.0) in
      (rw e at n, absent_entries h p m v.1 k.1 (rw gone refl))
  | inr o ↦ (
    elim (Bool-cases (member p ps)) [
      | inl l ↦ ground (arith, owner_of_member h j p ps v.0.2 l, ==_iff j (h.client p).user_id)
      | inr l ↦ l
    ],
    absent_entries h p m v.1 k.1 (rw o at n),
  )
]

-- In a valid hub an address that is not held is in no entry.
pub absent_of_not_held : (h : Hub) (p : ℕ) → IsValid h → holds h p ≡ false → Unlisted p h.clients
unfolding clients_of
absent_of_not_held h p v n = absent_entries h p h.clients v.entries v.keys n

-- A held address has an open channel.
pub open_of_held : (h : Hub) (p : ℕ) → IsValid h → holds h p ≡ true → h.closed p ≡ false
open_of_held h p v m =
    let u = (h.client p).user_id in
    (All-member (λ p. ((h.client p).user_id ≡ u) × (h.closed p ≡ false)) p (clients_of h u)
      (clients_of-valid h u v).1 m).1

memory-remove_entry :
    (p u : ℕ) (o : Option (List ℕ)) (h : Hub)
    → ((remove_entry p u o h).client ≡ h.client) × ((remove_entry p u o h).closed ≡ h.closed)
unfolding remove_entry
memory-remove_entry p u none h = (refl, refl)
memory-remove_entry p u (some ps) h = (ground arith, ground arith)

pub memory-remove :
    (p : ℕ) (h : Hub) → ((remove p h).client ≡ h.client) × ((remove p h).closed ≡ h.closed)
unfolding remove
memory-remove p h =
    memory-remove_entry p (h.client p).user_id (lookup (h.client p).user_id h.clients) h
