-- ===== src/Chat/Channels/Rollback.antt =====
-- What CreateDirectChannel of pkg/chat/service.go leaves when it fails.
use nexus_chat.Base.{ℕ, ◌≡◌, refl, sym, ap, subst, ◌∙◌, Bool, true, false, ◌∷◌}
use nexus_chat.Effects.{Result, ok, err, World, Env, History, call}
use nexus_chat.Chat.{Channel, Call, reserve_direct, delete_channel, Error, unavailable, Queries}
use nexus_chat.Chat.Channels.{fill, commit, reserve, after_reservation, after_conflict}

abbrev DeletesLast : Env Call → Channel → Result Error Channel × World Call → Type 0
DeletesLast env channel x =
    (b : Bool) × ((h : History Call) × (x.1.calls ≡ (delete_channel channel.id, b) ∷ h))

commit-DeletesLast :
    (env : Env Call) (queries : Queries) (channel : Channel) (r : Result Error (Unit {0}))
    (w : World Call) (e : Error)
    → (commit env queries channel r w).0 ≡ err e
    → DeletesLast env channel (commit env queries channel r w)
unfolding commit call
commit-DeletesLast env queries channel (ok _) w e failed = absurd (no_error failed)
  where
    no_error : ◌≡◌ {A = Result Error Channel} (ok channel) (err e) → ⊥
    no_error h = cc
commit-DeletesLast env queries channel (err c) w e failed =
    (env.accepts w.calls (delete_channel channel.id), (w.calls, refl))

-- the state after the reservation
abbrev pub reserved : ℕ → ℕ → Channel → World Call → World Call
reserved user target channel w = record w {
  calls = (reserve_direct channel.id user target, true) ∷ w.calls;
}

reserve-commit :
    (env : Env Call) (queries : Queries) (user target : ℕ) (channel : Channel) (w : World Call)
    → env.accepts w.calls (reserve_direct channel.id user target) ≡ true
    → let x = fill env queries user target channel (reserved user target channel w) in
      reserve env queries user target channel w ≡ commit env queries channel x.0 x.1
unfolding reserve after_reservation call
reserve-commit env queries user target channel w taken = rw taken refl

-- Once the pair of users is reserved, a CreateDirectChannel that fails has, with its last call,
-- asked to delete the channel that it made.
pub reserve-rollback :
    (env : Env Call) (queries : Queries) (user target : ℕ) (channel : Channel) (w : World Call)
    (e : Error)
    → env.accepts w.calls (reserve_direct channel.id user target) ≡ true
    → (reserve env queries user target channel w).0 ≡ err e
    → (b : Bool) × ((h : History Call) × ((reserve env queries user target channel w).1.calls
          ≡ (delete_channel channel.id, b) ∷ h))
reserve-rollback env queries user target channel w e taken failed =
    let q = reserve-commit env queries user target channel w taken in
    let x = fill env queries user target channel (reserved user target channel w) in
    subst (DeletesLast env channel) (sym q)
      (commit-DeletesLast env queries channel x.0 x.1 e (ap (λ y. y.0) (sym q) ∙ failed))

-- A reservation that fails for another reason than a channel of the same pair leaves the channel
-- that was created for it: CreateDirectChannel returns an error and no call follows the attempt.
pub reserve-leftover :
    (env : Env Call) (queries : Queries) (user target : ℕ) (channel : Channel) (w : World Call)
    → env.accepts w.calls (reserve_direct channel.id user target) ≡ false
    → ((h : History Call) → queries.already_reserved h user target ≡ false)
    → reserve env queries user target channel w ≡ (
      err unavailable,
      record w { calls = (reserve_direct channel.id user target, false) ∷ w.calls },
    )
unfolding reserve after_reservation after_conflict call
reserve-leftover env queries user target channel w refusal other =
    rw (refusal, other ((reserve_direct channel.id user target, false) ∷ w.calls)) refl
