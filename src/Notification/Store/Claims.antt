-- ===== src/Notification/Store/Claims.antt =====
-- What ClaimDue of pkg/notification/outbox.go keeps.
use nexus_chat.Base.{
  ℕ, zero, suc, ◌-◌, String, ◌≡◌, true, List, [], ◌∷◌, ◌++◌, Option, none, some, ltb, length,
}
use nexus_chat.Stateful.{return, ◌>>=◌, Keeps, Ensures-bind, Ensures-if, Keeps-return}
use nexus_chat.Notification.{Intent, Row, Entry, Env, bucket}
use nexus_chat.Notification.Store.{
  set_row, lease_over, leased, claim_row, claim_found, skipped, taken, claim_bucket, claim_entries,
  claim_days, take, due,
}
use nexus_chat.Notification.Store.Rules.{Property, On, Keeps-query, Keeps-update_if}

-- ClaimDue keeps what its UPDATE keeps.
module _ (env : Env) (T : Property) (owner : String) (lease t : ℕ)
    (on_claim : (rows : String → Option Row) (index : ℕ → List Entry) (i : String) (r : Row)
      → rows i ≡ some r
      → lease_over env t r ≡ true
      → T rows index
      → T (set_row i (leased env owner t lease r) rows) index) where
  claim_found-Keeps : (r : Row) → Keeps (On T) (claim_found env owner lease t r)
  unfolding claim_found
  claim_found-Keeps r =
      let test = lease_over env t in
      let change = leased env owner t lease in
      Ensures-bind _ _
        (Keeps-update_if env T r.intent.id test change
          (λ rows index q. on_claim rows index r.intent.id q))
        λ b. Keeps-return (taken env r b)

  claim_row-Keeps : (o : Option Row) → Keeps (On T) (claim_row env owner lease t o)
  unfolding claim_row
  claim_row-Keeps none = Keeps-return []
  claim_row-Keeps (some r) =
      Ensures-if (skipped env t r) (return []) (claim_found env owner lease t r)
        (λ _. Keeps-return []) (λ _. claim_found-Keeps r)

  claim_entries-Keeps : (es : List Entry) → Keeps (On T) (claim_entries env owner lease t es)
  unfolding claim_entries
  claim_entries-Keeps [] = Keeps-return []
  claim_entries-Keeps (e ∷ es) = Ensures-bind _ _ (Keeps-query env T (λ s. s.rows e.intent.id)) λ o.
      Ensures-bind _ _ (claim_row-Keeps o)
        λ first. Ensures-bind _ _ (claim_entries-Keeps es) λ rest. Keeps-return (first ++ rest)

  claim_bucket-Keeps : (room b : ℕ) → Keeps (On T) (claim_bucket env owner lease t room b)
  unfolding claim_bucket
  claim_bucket-Keeps room b =
      Ensures-bind _ _ (Keeps-query env T (λ s. take env room (due env t (s.index b))))
        claim_entries-Keeps

  pub claim_days-Keeps :
      (limit left ago : ℕ) (result : List Intent)
      → Keeps (On T) (claim_days env owner limit lease t left ago result)
  unfolding claim_days
  claim_days-Keeps limit zero ago result = Keeps-return result
  claim_days-Keeps limit (suc left) ago result =
      let bucket_claim = claim_bucket env owner lease t (limit - length result) (bucket t - ago) in
      Ensures-if (ltb (length result) limit)
        (bucket_claim >>= λ claimed.
          claim_days env owner limit lease t left (suc ago) (result ++ claimed))
        (return result)
        (λ _.
          Ensures-bind _ _ (claim_bucket-Keeps (limit - length result) (bucket t - ago))
            λ claimed. claim_days-Keeps limit left (suc ago) (result ++ claimed))
        (λ _. Keeps-return result)
