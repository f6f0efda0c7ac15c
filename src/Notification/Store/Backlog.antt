-- ===== src/Notification/Store/Backlog.antt =====
-- The rows of notification_outbox_by_bucket that ClaimDue meets before the ones it could claim.
use nexus_chat.Base.{
  ℕ, zero, suc, ◌-◌, ◌≤◌, String, ◌≡◌, refl, sym, ap, ◌∙◌, subst, false, List, [], ◌∷◌, ◌++◌,
  Option, none, some, arith, ltb, All, length,
}
use nexus_chat.Stateful.{
  return, ◌>>=◌, Ensures, Ends, Ensures-bind, Ensures-if, Ensures-return, Ensures-given,
}
use nexus_chat.Notification.{Intent, Row, Entry, Tables, Env, bucket}
use nexus_chat.Notification.Store.{
  is_pending, passes, now, claim_found, skipped, claim_row, claim_bucket, claim_entries, claim_days,
  claim_due, limit_of, lease_of, take, due,
}
use nexus_chat.Notification.Store.Rules.{Property, On, Ensures-query}

-- The row of the index is of a notification that is not pending any more.
abbrev pub IsStale : Env → (String → Option Row) → Entry → Type 0
IsStale env rows e = passes env (λ r. is_pending r.status) (rows e.intent.id) ≡ false

take_fewer :
    (env : Env) (P : Entry → Type 0) (n m : ℕ) (es : List Entry)
    → m ≤ n
    → All P (take env n es)
    → All P (take env m es)
take_fewer env P n m [] h a = tt
take_fewer env P n zero (e ∷ es) h a = tt
take_fewer env P zero (suc m) (e ∷ es) h a = absurd (omega arith)
take_fewer env P (suc n) (suc m) (e ∷ es) h a = (a.0, take_fewer env P n m es (omega arith) a.1)

module _ (env : Env) (rows : String → Option Row) (index : ℕ → List Entry) (owner : String)
    (lease t : ℕ) where
  abbrev Same : Property
  Same rows' index' = (rows' ≡ rows) × (index' ≡ index)

  -- nothing is claimed and the tables stay as they are
  abbrev Nothing : List Intent → Tables → Type 0
  Nothing xs s = (xs ≡ []) × On Same s

  claim_row-stale :
      (o : Option Row)
      → passes env (λ r. is_pending r.status) o ≡ false
      → Ensures (On Same) Nothing (On Same) (claim_row env owner lease t o)
  unfolding claim_row
  claim_row-stale none h = Ensures-return [] (λ s p. (refl, p))
  claim_row-stale (some r) h =
      Ensures-if (skipped env t r) (return []) (claim_found env owner lease t r)
        (λ _. Ensures-return [] (λ s p. (refl, p))) (λ e. absurd (ground (arith, e, h)))

  claim_entries-stale :
      (es : List Entry)
      → All (IsStale env rows) es
      → Ensures (On Same) Nothing (On Same) (claim_entries env owner lease t es)
  unfolding claim_entries
  claim_entries-stale [] h = Ensures-return [] (λ s p. (refl, p))
  claim_entries-stale (e ∷ es) h =
      Ensures-bind _ _
        (Ensures-query env Same (λ o s. (o ≡ rows e.intent.id) × On Same s)
          (λ s. s.rows e.intent.id) (λ s p. (ap (λ f. f e.intent.id) p.0, p)))
        λ o. Ensures-given _ λ found.
          Ensures-bind _ _
            (claim_row-stale o (ap (passes env (λ r. is_pending r.status)) found ∙ h.0))
            λ first. Ensures-given _ λ none_first.
              Ensures-bind _ _ (claim_entries-stale es h.1) λ rest. Ensures-given _ λ none_rest.
                Ensures-return (first ++ rest) λ s p. (rw (none_first, none_rest) refl, p)

  claim_bucket-stale :
      (room b : ℕ)
      → All (IsStale env rows) (take env room (due env t (index b)))
      → Ensures (On Same) Nothing (On Same) (claim_bucket env owner lease t room b)
  unfolding claim_bucket
  claim_bucket-stale room b h =
      Ensures-bind _ _
        (Ensures-query env Same (λ es s. (es ≡ take env room (due env t (index b))) × On Same s)
          (λ s. take env room (due env t (s.index b)))
          (λ s p. (ap (λ f. take env room (due env t (f b))) p.1, p)))
        λ es.
          Ensures-given _
            λ found. claim_entries-stale es (subst (λ xs. All (IsStale env rows) xs) (sym found) h)

  claim_days-stale :
      (limit left ago : ℕ) (result : List Intent)
      → result ≡ []
      → ((b : ℕ) → All (IsStale env rows) (take env limit (due env t (index b))))
      → Ensures (On Same) Nothing (On Same) (claim_days env owner limit lease t left ago result)
  unfolding claim_days
  claim_days-stale limit zero ago result e h = Ensures-return result (λ s p. (e, p))
  claim_days-stale limit (suc left) ago result e h =
      let room = limit - length result in
      let b = bucket t - ago in
      let fewer =
        take_fewer env (IsStale env rows) limit room (due env t (index b)) (omega arith) (h b) in
      Ensures-if (ltb (length result) limit)
        (claim_bucket env owner lease t room b >>= λ claimed.
          claim_days env owner limit lease t left (suc ago) (result ++ claimed))
        (return result)
        (λ _. Ensures-bind _ _ (claim_bucket-stale room b fewer) λ claimed.
          Ensures-given _ λ none_claimed.
            claim_days-stale limit left (suc ago) (result ++ claimed) (rw e none_claimed) h)
        (λ _. Ensures-return result (λ s p. (e, p)))

-- If, in each bucket, the rows that come first in the index up to the limit are of notifications
-- that are not pending any more, then ClaimDue claims nothing, whatever is due behind them, and
-- leaves the tables as they are.
pub claim_due-backlog :
    (env : Env) (s : Tables) (owner : String) (limit lease : ℕ)
    → ((b : ℕ)
        → All
            (IsStale env s.rows)
            (take env (limit_of env limit) (due env (env.clock s.readings) (s.index b))))
    → Ends
        (λ xs s'. (xs ≡ []) × ((s'.rows ≡ s.rows) × (s'.index ≡ s.index)))
        (λ s'. (s'.rows ≡ s.rows) × (s'.index ≡ s.index))
        (claim_due env owner limit lease s)
unfolding claim_due now
claim_due-backlog env s owner limit lease h =
    (claim_days-stale env s.rows s.index owner (lease_of env lease) (env.clock s.readings)
        (limit_of env limit) 8 0 [] refl h).at
      (record s { readings = suc s.readings }) (refl, refl)
