-- ===== src/Realtime/Outbox/Delivery.antt =====
-- At-least-once delivery of pkg/realtime/outbox.go, and where it ends.
use mathlib.Core.List.{Memᴰ}
use text.Mathlib.TextPositions.{eq_refl}
use nexus_chat.Base.{
  ℕ, suc, ◌⊎◌, String, ◌≡◌, refl, sym, ap, ◌∙◌, subst, Bool, true, false, ◌&&◌, List, [], ◌∷◌,
  Option, none, some, arith, Bool-cases, inl, inr, ◌==◌, ==_iff, str_eq, if◌then◌else◌, ◌≢◌,
}
use nexus_chat.Effects.{World, Env, History}
use nexus_chat.Effects.Facts.{
  Done, newest, earlier, Extends, same, Done-Adds, Adds-trans, Grows, Makes-bind, makes_rules,
}
use nexus_chat.Realtime.Outbox.{
  Event, OutboxRow, OutboxCall, row_of, insert_event, publish, mark_published, publish_durably,
  relay_row, relay_decoded, relay_rows, relay_pass, truncate_day,
}

abbrev is_row : ℕ → String → OutboxRow → Bool
is_row at id row = row.created_at == at && str_eq row.event_id id

drop_row : ℕ → String → List OutboxRow → List OutboxRow
drop_row at id [] = []
drop_row at id (row ∷ rows) =
    let rest = drop_row at id rows in if is_row at id row then rest else row ∷ rest

-- The rows of a service and a day that were written and not marked since: what the statements of
-- the outbox leave in the table.
unfoldable pub pending : {P : Type 0} → History (OutboxCall P) → String → ℕ → List OutboxRow
unfolding drop_row
pending [] s b = []
pending ((insert_event s' b' row, true) ∷ h) s b =
    let rest = pending h s b in if str_eq s' s && b' == b then row ∷ rest else rest
pending ((mark_published s' b' at id, true) ∷ h) s b =
    let rest = pending h s b in if str_eq s' s && b' == b then drop_row at id rest else rest
pending (_ ∷ h) s b = pending h s b

module _ {P E : Type 0} (env : Env (OutboxCall P)) (unavailable : E)
    (decode : String → Option (Event P)) (service : String) where
  abbrev as_is : OutboxCall P → OutboxCall P
  as_is c = c

  relay_decoded-Grows :
      (o : Option (Event P)) (b : ℕ) (row : OutboxRow)
      → Grows (relay_decoded env as_is unavailable o service b row)
  unfolding relay_decoded
  relay_decoded-Grows none b row = search makes_rules
  relay_decoded-Grows (some event) b row = search makes_rules

  relay_rows-Grows :
      (b : ℕ) (rows : List OutboxRow)
      → Grows (relay_rows env as_is unavailable decode service b rows)
  unfolding relay_rows
  relay_rows-Grows b [] = search makes_rules
  relay_rows-Grows b (row ∷ rows) =
      Makes-bind _ _ (relay_decoded-Grows (decode row.payload) b row) (λ _. relay_rows-Grows b rows)

  step_rows :
      (o : Option (Event P)) (b : ℕ) (row : OutboxRow) (rows : List OutboxRow)
      (w : World (OutboxCall P))
      → decode row.payload ≡ o
      → relay_rows env as_is unavailable decode service b (row ∷ rows) w
        ≡ relay_rows env as_is unavailable decode service b rows
            (relay_decoded env as_is unavailable o service b row w).1
  unfolding relay_rows
  step_rows none b row rows w e = rw (e, relay_row)
  step_rows (some event) b row rows w e = rw (e, relay_row)

  relay_decoded-publishes :
      (b : ℕ) (row : OutboxRow) (event : Event P) (w : World (OutboxCall P))
      → env.accepts w.calls (publish row.topic event.aggregate_id event) ≡ true
      → Done
          (publish row.topic event.aggregate_id event)
          (relay_decoded env as_is unavailable (some event) service b row w).1.calls
  unfolding relay_decoded
  relay_decoded-publishes b row event w up = rw up (earlier (newest refl))

  -- A pass that reads the row publishes its event, if Kafka takes it.
  relay_rows-publishes :
      (b : ℕ) (row : OutboxRow) (event : Event P) (rows : List OutboxRow) (w : World (OutboxCall P))
      → decode row.payload ≡ some event
      → ((h : History (OutboxCall P))
          → Extends w.calls h
          → env.accepts h (publish row.topic event.aggregate_id event) ≡ true)
      → Memᴰ row rows
      → Done
          (publish row.topic event.aggregate_id event)
          (relay_rows env as_is unavailable decode service b rows w).1.calls
  relay_rows-publishes b row event [] w d up m = elim m [ ]
  relay_rows-publishes b row event (r ∷ rows) w d up (Memᴰ.head e) =
      rw (step_rows (some event) b r rows w (ap (λ (x : OutboxRow). decode x.payload) (sym e) ∙ d))
        (Done-Adds
          (subst
            (λ (x : OutboxRow).
              Done (publish row.topic event.aggregate_id event)
                (relay_decoded env as_is unavailable (some event) service b x w).1.calls)
            e (relay_decoded-publishes b row event w (up w.calls same)))
          ((relay_rows-Grows b rows).at _))
  relay_rows-publishes b row event (r ∷ rows) w d up (Memᴰ.tail m) =
      rw (step_rows (decode r.payload) b r rows w refl) (
        relay_rows-publishes b row event rows _ d
          (λ h x. up h (Adds-trans ((relay_decoded-Grows (decode r.payload) b r).at w) x)) m)

  relay_pass-Grows :
      (unpublished : History (OutboxCall P) → String → ℕ → List OutboxRow)
      (w : World (OutboxCall P))
      → Extends w.calls (relay_pass env as_is unavailable decode unpublished service w).1.calls
  unfolding relay_pass
  relay_pass-Grows unpublished w =
      let b = truncate_day (env.clock w.readings) in
      (relay_rows-Grows b (unpublished w.calls service b)).at
        (record w { readings = suc w.readings })

  relay_pass-publishes :
      (unpublished : History (OutboxCall P) → String → ℕ → List OutboxRow) (row : OutboxRow)
      (event : Event P) (w : World (OutboxCall P))
      → decode row.payload ≡ some event
      → ((h : History (OutboxCall P))
          → Extends w.calls h
          → env.accepts h (publish row.topic event.aggregate_id event) ≡ true)
      → Memᴰ row (unpublished w.calls service (truncate_day (env.clock w.readings)))
      → Done
          (publish row.topic event.aggregate_id event)
          (relay_pass env as_is unavailable decode unpublished service w).1.calls
  unfolding relay_pass
  relay_pass-publishes unpublished row event w d up m =
      let b = truncate_day (env.clock w.readings) in
      relay_rows-publishes b row event (unpublished w.calls service b)
        (record w { readings = suc w.readings }) d up m

same_key : (s : String) (b : ℕ) → (str_eq s s && b == b) ≡ true
same_key s b = rw eq_refl (ground arith)

-- What PublishDurably leaves behind once its row is written.
published_or_pending :
    {P E : Type 0} (env : Env (OutboxCall P)) (unavailable : E) (encode : Event P → String)
    (service topic : String) (event : Event P) (w : World (OutboxCall P))
    → let t = env.clock w.readings in
      let row = row_of encode t topic event in
      let raised = (publish_durably env (λ c. c) unavailable encode service topic event w).1 in
      env.accepts w.calls (insert_event service (truncate_day t) row) ≡ true
      → Done (publish topic event.aggregate_id event) raised.calls
        ⊎ Memᴰ row (pending raised.calls service (truncate_day t))
unfolding publish_durably pending
published_or_pending {P} env unavailable encode service topic event w written =
    let t = env.clock w.readings in
    let row = row_of encode t topic event in
    elim (Bool-cases (
      env.accepts ((insert_event service (truncate_day t) row, true) ∷ w.calls)
        (publish topic event.aggregate_id event))) [
          | inl sent ↦ rw (written, sent) (inl (earlier (newest refl)))
          | inr lost ↦
              rw (written, lost) (inr (rw (same_key service (truncate_day t)) (Memᴰ.head refl)))
        ]

-- An event whose outbox row was written is not lost: it went out at once, or the next pass of
-- RelayOutbox on the same day sends it out, if the event decodes from its encoding, the pass reads
-- the rows that are not published and Kafka takes the event from then on. Nothing is assumed of
-- Kafka when the event was raised.
pub relay-publish_durably :
    {P E : Type 0} (env : Env (OutboxCall P)) (unavailable : E) (encode : Event P → String)
    (decode : String → Option (Event P))
    (unpublished : History (OutboxCall P) → String → ℕ → List OutboxRow) (service topic : String)
    (event : Event P) (w : World (OutboxCall P))
    → decode (encode event) ≡ some event
    → ((h : History (OutboxCall P)) (s : String) (b : ℕ) (row : OutboxRow)
        → Memᴰ row (pending h s b)
        → Memᴰ row (unpublished h s b))
    → env.accepts w.calls (
        insert_event service
          (truncate_day (env.clock w.readings))
          (row_of encode (env.clock w.readings) topic event))
      ≡ true
    → truncate_day (
        env.clock
          (publish_durably env (λ c. c) unavailable encode service topic event w).1.readings)
      ≡ truncate_day (env.clock w.readings)
    → ((h : History (OutboxCall P))
        → Extends (publish_durably env (λ c. c) unavailable encode service topic event w).1.calls h
        → env.accepts h (publish topic event.aggregate_id event) ≡ true)
    → Done
        (publish topic event.aggregate_id event)
        (relay_pass env
          (λ c. c)
          unavailable
          decode
          unpublished
          service
          (publish_durably env (λ c. c) unavailable encode service topic event w).1).1.calls
relay-publish_durably {P} env unavailable encode decode unpublished service topic event w law reads
      written day up =
    let row = row_of encode (env.clock w.readings) topic event in
    elim (published_or_pending env unavailable encode service topic event w written) [
      | inl sent ↦ Done-Adds sent (relay_pass-Grows env unavailable decode service unpublished _)
      | inr left ↦
          relay_pass-publishes env unavailable decode service unpublished row event _ law up
            (reads _ service _ row (rw day left))
    ]

module _ {P E : Type 0} (env : Env (OutboxCall P)) (unavailable : E)
    (decode : String → Option (Event P)) (service : String) (b : ℕ) where
  -- A row keeps pending through calls that mark rows of another day.
  relay_decoded-keeps :
      (o : Option (Event P)) (today : ℕ) (r : OutboxRow) (w : World (OutboxCall P))
      → (today == b) ≡ false
      → pending (relay_decoded env (λ c. c) unavailable o service today r w).1.calls service b
        ≡ pending w.calls service b
  unfolding relay_decoded pending
  relay_decoded-keeps none today r w other = refl
  relay_decoded-keeps (some event) today r w other =
      let out : OutboxCall P = publish r.topic event.aggregate_id event in
      let mark : OutboxCall P = mark_published service today r.created_at r.event_id in
      elim (Bool-cases (env.accepts w.calls out)) [
        | inl sent ↦ rw sent (elim (Bool-cases (env.accepts ((out, true) ∷ w.calls) mark)) [
          | inl marked ↦ rw marked (rw (eq_refl, other) refl)
          | inr lost ↦ rw lost refl
        ])
        | inr lost ↦ rw lost refl
      ]

  relay_rows-keeps :
      (today : ℕ) (rows : List OutboxRow) (w : World (OutboxCall P))
      → (today == b) ≡ false
      → pending (relay_rows env (λ c. c) unavailable decode service today rows w).1.calls service b
        ≡ pending w.calls service b
  relay_rows-keeps today [] w other = unfold relay_rows in refl
  relay_rows-keeps today (r ∷ rows) w other =
      rw (step_rows env unavailable decode service (decode r.payload) today r rows w refl) (
        relay_rows-keeps today rows _ other
        ∙ relay_decoded-keeps (decode r.payload) today r w other)

-- A pass of RelayOutbox on one day leaves the pending rows of every other day as they are.
pub relay_pass-other_day :
    {P E : Type 0} (env : Env (OutboxCall P)) (unavailable : E) (decode : String → Option (Event P))
    (unpublished : History (OutboxCall P) → String → ℕ → List OutboxRow) (service : String) (b : ℕ)
    (w : World (OutboxCall P))
    → truncate_day (env.clock w.readings) ≢ b
    → pending (relay_pass env (λ c. c) unavailable decode unpublished service w).1.calls service b
      ≡ pending w.calls service b
unfolding relay_pass
relay_pass-other_day env unavailable decode unpublished service b w other =
    let today = truncate_day (env.clock w.readings) in
    relay_rows-keeps env unavailable decode service b today (unpublished w.calls service today)
      (record w { readings = suc w.readings }) (ground (arith, ==_iff today b))
