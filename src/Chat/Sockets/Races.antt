-- ===== src/Chat/Sockets/Races.antt =====
-- Two connections of one user whose initializations overlap.
use nexus_chat.Base.{◌≡◌, refl, ap, ◌∙◌, ℕ, suc, String, true, false}
use nexus_chat.Effects.{Result, ok}
use nexus_chat.Cassandra.{Outcome, failed}
use nexus_chat.Storage.{set_pair, set_pair-own}
use nexus_chat.Chat.Sockets.{
  Sockets, Failure, acquire_session, release_session, set_online, or_release, announce,
  initialize_chat_session,
}

module _ (works : ℕ → Outcome) (subscriber : String) where
  -- A first connection acquires the session of a user who has none, a second one is initialized in
  -- between, and then the first goes on.
  unfoldable pub overlapping : ℕ → ℕ → Sockets → Sockets
  overlapping c u s =
      (announce works subscriber c u true
        (initialize_chat_session works subscriber c u (acquire_session c u s).1).1).1

  second :
      (c u : ℕ) (s : Sockets)
      → s.counts c u ≡ 0
      → initialize_chat_session works subscriber c u (acquire_session c u s).1
        ≡ (ok tt, record s { counts = set_pair c u 2 (set_pair c u 1 s.counts) })
  unfolding initialize_chat_session acquire_session announce
  second c u s e = rw (e, set_pair-own c u 1 s.counts) refl

  first :
      (c u : ℕ) (s : Sockets) (f : ℕ → ℕ → ℕ)
      → works s.calls ≡ failed
      → (announce works subscriber c u true (record s { counts = set_pair c u 2 f })).1
        ≡ record s { counts = set_pair c u 1 (set_pair c u 2 f); calls = suc s.calls }
  unfolding announce or_release set_online release_session
  first c u s f w = rw (w, set_pair-own c u 2 f) refl

  -- If the user had no session and was not online, and the call that puts the user online fails for
  -- the first connection: the second connection was initialized without a call and its session goes
  -- on, one session is counted, but the user is not online.
  pub overlapping-offline :
      (c u : ℕ) (s : Sockets)
      → s.counts c u ≡ 0
      → s.online c u ≡ false
      → works s.calls ≡ failed
      → ((initialize_chat_session works subscriber c u (acquire_session c u s).1).0 ≡ ok tt)
        × (((overlapping c u s).counts c u ≡ 1) × ((overlapping c u s).online c u ≡ false))
  unfolding overlapping
  overlapping-offline c u s e f w =
      let ended : overlapping c u s ≡ record s {
        counts = set_pair c u 1 (set_pair c u 2 (set_pair c u 1 s.counts));
        calls = suc s.calls;
      } =
        ap (λ (x : Result Failure (Unit {0}) × Sockets). (announce works subscriber c u true x.1).1)
          (second c u s e)
        ∙ first c u s (set_pair c u 1 s.counts) w in
      (
        ap (λ (x : Result Failure (Unit {0}) × Sockets). x.0) (second c u s e),
        (
          ap (λ (x : Sockets). x.counts c u) ended
              ∙ set_pair-own c u 1 (set_pair c u 2 (set_pair c u 1 s.counts)),
          ap (λ (x : Sockets). x.online c u) ended ∙ f,
        ),
      )
