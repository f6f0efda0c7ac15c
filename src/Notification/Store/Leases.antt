-- ===== src/Notification/Store/Leases.antt =====
-- What ClaimDue of pkg/notification/outbox.go hands out.
use nexus_chat.Base.{
  ℕ, zero, suc, ◌+◌, ◌-◌, String, ◌≡◌, refl, ap, subst, Bool, true, false, ◌&&◌, List, [], ◌∷◌,
  ◌++◌, Option, none, some, arith, str_eq, str_eq_iff, ltb, if◌then◌else◌, All, length,
}
use nexus_chat.Effects.{ok}
use nexus_chat.Stateful.{
  return, ◌>>=◌, Ensures, Ends, Ensures-bind, Ensures-if, Ensures-return, Ensures-error,
}
use nexus_chat.Notification.{Intent, Row, Entry, Tables, Env, bucket}
use nexus_chat.Notification.Store.{
  is_pending, set_row, now, lease_over, leased, taken, claim_found, skipped, claim_row,
  claim_bucket, claim_entries, claim_days, claim_due, limit_of, lease_of, take, due,
}
use nexus_chat.Notification.Store.Rules.{Property, On, Keeps-query, Ensures-update_if}

abbrev pub IsHeld : String → ℕ → Row → Type 0
IsHeld owner until r =
    (is_pending r.status ≡ true) × (r.lease_owner ≡ owner) × (r.lease_until ≡ until)

-- The row of the notification is pending and leased to the worker until the given time.
abbrev pub IsLeased : String → ℕ → (String → Option Row) → String → Type 0
IsLeased owner until rows id = (r : Row) × ((rows id ≡ some r) × IsHeld owner until r)

set_row_same : (rows : String → Option Row) (i : String) (r : Row) → set_row i r rows i ≡ some r
set_row_same rows i r = rw ((str_eq_iff i i).1 refl) refl

append_assoc : {A : Type 0} (xs ys zs : List A) → (xs ++ ys) ++ zs ≡ xs ++ (ys ++ zs)
append_assoc [] ys zs = refl
append_assoc (x ∷ xs) ys zs = ap (λ l. x ∷ l) (append_assoc xs ys zs)

All-append : (P : Intent → Type 0) (xs ys : List Intent) → All P xs → All P ys → All P (xs ++ ys)
All-append P [] ys a b = b
All-append P (x ∷ xs) ys a b = (a.0, All-append P xs ys a.1 b)

module _ (env : Env) (owner : String) (lease t : ℕ) where
  abbrev Leased : (String → Option Row) → String → Type 0
  Leased = IsLeased owner (t + lease)

  abbrev Held : List Intent → Property
  Held xs rows index = All (λ x. Leased rows x.id) xs

  leased-Leased :
      (rows : String → Option Row) (i j : String) (r : Row)
      → is_pending r.status ≡ true
      → Leased rows j
      → Leased (set_row i (leased env owner t lease r) rows) j
  leased-Leased rows i j r e h = branch (str_eq i j) refl
    where
      branch :
          (b : Bool)
          → str_eq i j ≡ b
          → (q : Row) × (((if str_eq i j then some (leased env owner t lease r) else rows j)
                ≡ some q)
              × IsHeld owner (t + lease) q)
      branch true b = (leased env owner t lease r, (rw b refl, (e, refl, refl)))
      branch false b = (h.0, (rw b h.1.0, h.1.1))

  leased-Held :
      (xs : List Intent) (rows : String → Option Row) (i : String) (r : Row)
      → is_pending r.status ≡ true
      → All (λ x. Leased rows x.id) xs
      → All (λ x. Leased (set_row i (leased env owner t lease r) rows) x.id) xs
  leased-Held [] rows i r e h = tt
  leased-Held (x ∷ xs) rows i r e h =
      (leased-Leased rows i x.id r e h.0, leased-Held xs rows i r e h.1)

  still_pending : (b c : Bool) → (b && c) ≡ true → b ≡ true
  still_pending b c e = ground arith

  Ensures-append :
      (held xs : List Intent) (s : Tables)
      → On (Held held) s
      → On (Held xs) s
      → On (Held (held ++ xs)) s
  Ensures-append held xs s a b = All-append (λ x. Leased s.rows x.id) held xs a b

  claim_found-leases :
      (held : List Intent) (r : Row)
      → Ensures
          (On (Held held))
          (λ xs. On (Held (held ++ xs)))
          (On (Held held))
          (claim_found env owner lease t r)
  unfolding claim_found
  claim_found-leases held r =
      Ensures-bind _ _
        (Ensures-update_if env (Held held) (λ b. On (Held (held ++ taken env r b))) r.intent.id
          (lease_over env t) (leased env owner t lease)
          (λ s q found over h n.
            let e = still_pending _ _ over in
            let h' = leased-Held held s.rows r.intent.id q e h in
            let q' = leased env owner t lease q in
            (
              Ensures-append held (r.intent ∷ [])
                  (record s { rows = set_row r.intent.id q' s.rows }) h'
                  ((q', (set_row_same s.rows r.intent.id q', (e, refl, refl))), tt),
              h',
            ))
          (λ s over h n. Ensures-append held [] s h tt))
        λ b. Ensures-return (taken env r b) (λ s h. h)

  claim_row-leases :
      (held : List Intent) (o : Option Row)
      → Ensures
          (On (Held held))
          (λ xs. On (Held (held ++ xs)))
          (λ s. Unit)
          (claim_row env owner lease t o)
  unfolding claim_row
  claim_row-leases held none = Ensures-return [] (λ s h. Ensures-append held [] s h tt)
  claim_row-leases held (some r) =
      Ensures-if (skipped env t r) (return []) (claim_found env owner lease t r)
        (λ _. Ensures-return [] (λ s h. Ensures-append held [] s h tt))
        (λ _. Ensures-error (claim_found-leases held r))

  claim_entries-leases :
      (es : List Entry) (held : List Intent)
      → Ensures
          (On (Held held))
          (λ xs. On (Held (held ++ xs)))
          (λ s. Unit)
          (claim_entries env owner lease t es)
  unfolding claim_entries
  claim_entries-leases [] held = Ensures-return [] (λ s h. Ensures-append held [] s h tt)
  claim_entries-leases (e ∷ es) held =
      Ensures-bind _ _ (Ensures-error (Keeps-query env (Held held) (λ s. s.rows e.intent.id))) λ o.
        Ensures-bind _ _ (claim_row-leases held o) λ first.
          Ensures-bind _ _ (claim_entries-leases es (held ++ first)) λ rest.
            Ensures-return (first ++ rest)
              (λ s h. subst (λ xs. On (Held xs) s) (append_assoc held first rest) h)

  claim_days-leases :
      (limit left ago : ℕ) (result : List Intent)
      → Ensures
          (On (Held result))
          (λ xs. On (Held xs))
          (λ s. Unit)
          (claim_days env owner limit lease t left ago result)
  unfolding claim_days claim_bucket
  claim_days-leases limit zero ago result = Ensures-return result (λ s h. h)
  claim_days-leases limit (suc left) ago result =
      let room = limit - length result in
      let b = bucket t - ago in
      Ensures-if (ltb (length result) limit)
        (claim_bucket env owner lease t room b >>= λ claimed.
          claim_days env owner limit lease t left (suc ago) (result ++ claimed))
        (return result)
        (λ _.
          Ensures-bind _ _
            (Ensures-bind _ _
              (Ensures-error
                (Keeps-query env (Held result) (λ s. take env room (due env t (s.index b)))))
              λ es. claim_entries-leases es result)
            λ claimed. claim_days-leases limit left (suc ago) (result ++ claimed))
        (λ _. Ensures-return result (λ s h. h))

-- Each intent that ClaimDue returns is, when it returns, pending in the table under its id and
-- leased to the calling worker until the time of the call plus the lease.
pub claim_due-IsLeased :
    (env : Env) (s s' : Tables) (owner : String) (limit lease : ℕ) (xs : List Intent)
    → claim_due env owner limit lease s ≡ (ok xs, s')
    → All (λ x. IsLeased owner (env.clock s.readings + lease_of env lease) s'.rows x.id) xs
unfolding claim_due now
claim_due-IsLeased env s s' owner limit lease xs e =
    let t = env.clock s.readings in
    subst (Ends (λ xs. On (Held env owner (lease_of env lease) t xs)) (λ s. Unit)) e (
      (claim_days-leases env owner (lease_of env lease) t (limit_of env limit) 8 0 []).at
        (record s { readings = suc s.readings }) tt)
