-- ===== src/Realtime/Assertions/Memory.antt =====
-- verifyAssertion of pkg/realtime/assertion.go with its memory of used nonces, replayedAssertions,
-- and the histories of its calls. The lock makes each use of the memory one step.
use nexus_chat.Base.{
  ℕ, suc, ◌+◌, ◌*◌, ◌/◌, String, Bool, false, ◌||◌, List, [], ◌∷◌, ltb, if◌then◌else◌, str_eq,
}
use nexus_chat.Effects.{ok, err}
use nexus_chat.Stateful.{Op, return, lift, ◌>>=◌, ◌>>◌}
use nexus_chat.Realtime.Assertions.{
  Fields, Library, Environment, Error, replay_detected, Int64, int64, plus, a_second,
  needs_assertion, read_assertion, in_scope, in_time, bound_to,
}

-- the nonces that were used, each with the expiry of its assertion (before time.Unix), and the readings of the clock
pub record Memory : Type 0 where
  pub values : List (String × Int64)
  pub readings : ℕ

unfoldable pub seen : String → List (String × ℕ) → Bool
seen nonce [] = false
seen nonce ((n, e) ∷ rest) = str_eq n nonce || seen nonce rest

-- the seconds from the year 1 to 1970
abbrev pub before_1970 : ℕ
before_1970 = 62135596800

-- time.Unix(expires, 0).Before(time.Now()) at a reading of the clock: a time holds its seconds from
-- the year 1 in an int64, where the sum of time.Unix wraps around
unfoldable pub is_over : Int64 → ℕ → Bool
unfolding plus
is_over expires reading =
    ltb (plus expires before_1970 * a_second) (int64 before_1970 * a_second + reading)

module _ (clock : ℕ → ℕ) where
  -- the loop that deletes what has expired, which reads the clock at each entry
  unfoldable pub purge : List (String × ℕ) → ℕ → List (String × ℕ) × ℕ
  purge [] r = ([], r)
  purge ((n, e) ∷ rest) r =
      let (kept, r') = purge rest (suc r) in
      (if is_over e (clock r) then kept else (n, e) ∷ kept, r')

  abbrev pub purged : Memory → Memory
  purged s = let (kept, r) = purge s.values s.readings in record { values = kept; readings = r }

  -- from the lock to the end
  unfoldable pub remember : String → ℕ → Op Memory Error (Unit {0})
  unfolding purge seen
  remember nonce expires s =
      let t = purged s in
      if seen nonce t.values
      then (err replay_detected, t)
      else (ok tt, record t { values = (nonce, expires) ∷ t.values })

  unfoldable pub read_clock : Op Memory Error ℕ
  read_clock s = (ok (clock s.readings), record s { readings = suc s.readings })

module _ (lib : Library) (environment : Environment) (clock : ℕ → ℕ) where
  unfoldable pub verify_signed : Fields → List String → String → Op Memory Error (Unit {0})
  verify_signed fields headers method = do
    signed ← lift (read_assertion lib environment headers)
    lift (in_scope method signed)
    now ← read_clock clock
    lift (in_time (now / a_second) signed.1)
    lift (bound_to lib environment fields signed.1)
    remember clock signed.1.nonce signed.1.expires

  -- verifyAssertion
  unfoldable pub verify_assertion : Fields → List String → String → Op Memory Error (Unit {0})
  verify_assertion fields headers method =
      if needs_assertion fields then verify_signed fields headers method else return tt

  -- any requests, one after the other
  pub data Reach (s : Memory) : Memory → Type 0 where
    here : Reach s s
    next :
        {t : Memory} (fields : Fields) (headers : List String) (method : String)
        → Reach s t
        → Reach s (verify_assertion fields headers method t).1
