-- ===== src/Storage/Channels/Direct.antt =====
-- The one direct channel of a pair of users in pkg/chat/repo.go.
use nexus_chat.Base.{
  sym, ◌≡◌, refl, ℕ, String, Bool, true, false, not, Option, some, if◌then◌else◌, Bool-cases, inl,
  inr, arith, subst,
}
use nexus_chat.Effects.{ok}
use nexus_chat.Stateful.{
  throw_if, ◌>>◌, Ensures, Keeps, Ensures-bind, Keeps-return, Keeps-after, Keeps-throw_if,
  Ensures-ok, Ensures-error,
}
use nexus_chat.Cassandra.{
  done, found_by, after, read-done, Unknown, unknown, Database, Session, On, Stable, write, ignore,
  Ensures-statement, Keeps-statement, Keeps-ignore,
}
use nexus_chat.Storage.{Tables, Error, set_pair, set_pair-entry, direct_exists, Keeps-require}
use nexus_chat.Storage.Channels.{
  canonical_pair, is_absent, put_direct_by_pair, put_direct_by_id, create_direct_channel,
  get_direct_channel, new_jwt, open_direct,
}

-- The channel `c` belongs to the pair.
unfoldable pub IsDirect : ℕ × ℕ → ℕ → Tables → Type 0
IsDirect p c t = t.direct_by_pair p.0 p.1 ≡ some c

canonical_pair-swap : (a b : ℕ) → canonical_pair a b ≡ canonical_pair b a
canonical_pair-swap a b = ground arith

reserve-IsDirect :
    (p q : ℕ × ℕ) (c k : ℕ) (t : Tables)
    → IsDirect p c t
    → IsDirect p c
        (if is_absent (t.direct_by_pair q.0 q.1) then put_direct_by_pair q (some k) t else t)
unfolding IsDirect
reserve-IsDirect p q c k t h = elim (Bool-cases (is_absent (t.direct_by_pair q.0 q.1))) [
  | inl e ↦
      rw e (set_pair-entry (λ o. o ≡ some c) q.0 q.1 (some k) t.direct_by_pair p.0 p.1 h (clash e))
  | inr e ↦ rw e h
]
  where
    clash : {o : Option ℕ} → is_absent o ≡ true → o ≡ some c → some k ≡ some c
    clash {o} e f = cc

reserved-IsDirect :
    (p : ℕ × ℕ) (c : ℕ) (t : Tables) → IsDirect p c (put_direct_by_pair p (some c) t)
unfolding IsDirect set_pair
reserved-IsDirect p c t = ground arith

module _ (session : Session Tables Error) (tokens : ℕ → Option String) where
  module _ (p : ℕ × ℕ) (c : ℕ) (stable : Stable session (IsDirect p c)) where
    by_id-IsDirect :
        (k : ℕ) (q : Option (ℕ × ℕ)) (t : Tables)
        → IsDirect p c t
        → IsDirect p c (put_direct_by_id k q t)
    unfolding IsDirect
    by_id-IsDirect k q t h = h

    create-IsDirect : (k a b : ℕ) → Keeps (On (IsDirect p c)) (create_direct_channel session k a b)
    unfolding create_direct_channel
    create-IsDirect k a b =
        Ensures-bind _ _
          (Keeps-statement (IsDirect p c) session _ _ stable
            (reserve-IsDirect p (canonical_pair a b) c k))
          λ applied.
            Ensures-bind _ _ (Keeps-throw_if _ _)
              λ x. Keeps-statement (IsDirect p c) session _ _ stable (by_id-IsDirect k _)

    open-IsDirect : (q : ℕ × ℕ) (k : ℕ) → Keeps (On (IsDirect p c)) (open_direct session tokens q k)
    unfolding open_direct new_jwt
    open-IsDirect q k = Ensures-bind _ _ (Keeps-require _ _ (tokens k)) λ token.
        Ensures-bind (ignore (write session (put_direct_by_id k (some q)))) _
          (Keeps-ignore (IsDirect p c) (write session (put_direct_by_id k (some q)))
            (Keeps-statement (IsDirect p c) session (λ t. tt) _ stable (by_id-IsDirect k (some q))))
          λ x. Keeps-return (record { id = k; access_token = token })

    get-IsDirect : (a b : ℕ) → Keeps (On (IsDirect p c)) (get_direct_channel session tokens a b)
    unfolding get_direct_channel
    get-IsDirect a b =
        Ensures-bind _ _ (Keeps-statement (IsDirect p c) session _ _ stable λ t h. h)
          λ row. Ensures-bind _ _ (Keeps-require _ _ row) (open-IsDirect (canonical_pair a b))

  -- The operations on direct channels but for their deletion.
  pub data Step (d : Database Tables) : Database Tables → Type 0 where
    creates : (c a b : ℕ) → Step d (create_direct_channel session c a b d).1
    gets : (a b : ℕ) → Step d (get_direct_channel session tokens a b d).1

  pub data Reach (d : Database Tables) : Database Tables → Type 0 where
    here : Reach d d
    next : {e f : Database Tables} → Reach d e → Step e f → Reach d f

  Reach-IsDirect :
      (p : ℕ × ℕ) (c : ℕ) {d e : Database Tables}
      → Stable session (IsDirect p c)
      → Reach d e
      → IsDirect p c d.tables
      → IsDirect p c e.tables
  Reach-IsDirect p c s here h = h
  Reach-IsDirect p c s (next {e} r (creates k a b)) h =
      Keeps-after _ e (create-IsDirect p c s k a b) (Reach-IsDirect p c s r h)
  Reach-IsDirect p c s (next {e} r (gets a b)) h =
      Keeps-after _ e (get-IsDirect p c s a b) (Reach-IsDirect p c s r h)

  creates-IsDirect :
      (c a b : ℕ)
      → Stable session (IsDirect (canonical_pair a b) c)
      → Ensures
          (On Unknown)
          (λ x. On (IsDirect (canonical_pair a b) c))
          (On Unknown)
          (create_direct_channel session c a b)
  unfolding create_direct_channel Unknown
  creates-IsDirect c a b stable =
      Ensures-bind _ _
        (Ensures-statement Unknown Reserved Unknown session _ _ (λ n t h. tt) (λ t h. tt)
          λ t h. (reserved t, tt))
        settle
    where
      Reserved : Bool → Tables → Type 0
      Reserved applied t = applied ≡ true → IsDirect (canonical_pair a b) c t

      reserved :
          (t : Tables)
          → Reserved (is_absent (t.direct_by_pair (canonical_pair a b).0 (canonical_pair a b).1)) (
              if is_absent (t.direct_by_pair (canonical_pair a b).0 (canonical_pair a b).1)
              then put_direct_by_pair (canonical_pair a b) (some c) t
              else t)
      reserved t e = rw e (reserved-IsDirect (canonical_pair a b) c t)

      settle :
          (applied : Bool)
          → Ensures
              (On (Reserved applied))
              (λ x. On (IsDirect (canonical_pair a b) c))
              (On Unknown)
              (throw_if (not applied) direct_exists
                >> write session (put_direct_by_id c (some (canonical_pair a b))))
      settle true = record {
        at = λ d h.
            (Ensures-error (
                Keeps-statement (IsDirect (canonical_pair a b) c) session (λ t. tt) _ stable
                  (by_id-IsDirect (canonical_pair a b) c stable c _))).at
              d (h refl);
      }
      settle false = record { at = λ d h. tt }

  -- a statement whose failure is passed over does not show in the answer
  opens :
      (q : ℕ × ℕ) (c : ℕ) (key : String) (d : Database Tables)
      → tokens c ≡ some key
      → (open_direct session tokens q c d).0 ≡ ok (record { id = c; access_token = key })
  unfolding open_direct new_jwt
  opens q c key d e = rw e refl

  answers :
      (p : ℕ × ℕ) (c a b : ℕ) (key : String) (f : Database Tables)
      → canonical_pair a b ≡ p
      → Stable session (IsDirect p c)
      → IsDirect p c f.tables
      → session.works f.statements ≡ done
      → tokens c ≡ some key
      → (get_direct_channel session tokens a b f).0 ≡ ok (record { id = c; access_token = key })
  unfolding get_direct_channel IsDirect
  answers p c a b key f e stable kept w t =
      let row : (found_by session f).direct_by_pair (canonical_pair a b).0 (canonical_pair a b).1
          ≡ some c =
        subst (λ (q : ℕ × ℕ). (found_by session f).direct_by_pair q.0 q.1 ≡ some c) (sym e)
          (stable f.statements f.tables kept) in
      rw
        (
          read-done session (λ t. t.direct_by_pair (canonical_pair a b).0 (canonical_pair a b).1) f
              w,
          row,
        )
        (opens (canonical_pair a b) c key (after (found_by session f) f) t)

  -- Where no other instance takes the channel of the pair away: once CreateDirectChannel has made a
  -- channel for two users, then after any further operations on direct channels but a deletion,
  -- however their statements end, GetDirectChannel of the two, in either order, answers this channel
  -- with its token, if the next statement succeeds and the token can be made.
  pub get_direct_channel-create :
      (c a b : ℕ) (key : String) (d e f : Database Tables)
      → Stable session (IsDirect (canonical_pair a b) c)
      → create_direct_channel session c a b d ≡ (ok tt, e)
      → Reach e f
      → session.works f.statements ≡ done
      → tokens c ≡ some key
      → ((get_direct_channel session tokens a b f).0 ≡ ok (record { id = c; access_token = key }))
        × ((get_direct_channel session tokens b a f).0 ≡ ok (record { id = c; access_token = key }))
  get_direct_channel-create c a b key d e f stable made r w t =
      let kept =
        Reach-IsDirect (canonical_pair a b) c stable r
          (Ensures-ok _ d e tt (creates-IsDirect c a b stable) (unknown d.tables) made) in
      let p = canonical_pair a b in
      (
        answers p c a b key f refl stable kept w t,
        answers p c b a key f (canonical_pair-swap b a) stable kept w t,
      )
