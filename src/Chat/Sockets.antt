-- ===== src/Chat/Sockets.antt =====
-- pkg/chat/http_api.go: the WebSocket sessions of users in channels, from HandleChatOnConnect on an
-- authorized session to HandleChatOnClose.
--
-- The state is `sessionCounts` of this server, the users that it has put into the sets of those online,
-- and its entries at the forwarder. The n-th call of another service succeeds, fails, or fails after it
-- took effect, as `works n` says. The messages that a connection broadcasts are not part of it.
pub mod Changes
pub mod Presence
pub mod Races
use nexus_chat.Base.{
  ℕ, suc, zero, ◌-◌, String, Bool, true, false, Option, none, some, ◌==◌, leb, ◌&&◌, if◌then◌else◌,
}
use nexus_chat.Effects.{Result, ok, err}
use nexus_chat.Stateful.{Op, return, throw, ◌>>=◌, ◌>>◌}
use nexus_chat.Cassandra.{Outcome, done, failed, failed_applied}
use nexus_chat.Storage.{set_pair}

pub record Sockets : Type 0 where
  -- by channel and user, 0 where the map has no entry
  pub counts : ℕ → ℕ → ℕ
  pub online : ℕ → ℕ → Bool
  pub registered : ℕ → ℕ → Option String
  pub calls : ℕ

pub data Failure : Type 0 where
  unavailable : Failure

abbrev pub SocketOp : Type 0 → Type 0
SocketOp A = Op Sockets Failure A

unfoldable pub acquire_session : ℕ → ℕ → SocketOp Bool
acquire_session c u s =
    (ok (s.counts c u == 0), record s { counts = set_pair c u (suc (s.counts c u)) s.counts })

unfoldable pub release_session : ℕ → ℕ → SocketOp Bool
release_session c u s =
    (ok (leb (s.counts c u) 1), record s { counts = set_pair c u (s.counts c u - 1) s.counts })

abbrev pub called : Outcome → Sockets → Sockets → Result Failure (Unit {0}) × Sockets
called done s t = (ok tt, t)
called failed s t = (err unavailable, s)
called failed_applied s t = (err unavailable, t)

module _ (works : ℕ → Outcome) (subscriber : String) where
  abbrev pub counted : Sockets → Sockets
  counted s = record s { calls = suc s.calls }

  unfoldable pub set_online : Bool → ℕ → ℕ → SocketOp (Unit {0})
  set_online b c u s =
      called (works s.calls) (counted s) (record (counted s) { online = set_pair c u b s.online })

  -- RegisterChannelSession
  unfoldable pub register_session : ℕ → ℕ → SocketOp (Unit {0})
  register_session c u s =
      called (works s.calls) (counted s)
        (record (counted s) { registered = set_pair c u (some subscriber) s.registered })

  abbrev pub release_failed :
      ℕ → ℕ → Result Failure (Unit {0}) × Sockets → Result Failure (Unit {0}) × Sockets
  release_failed c u (ok x, s) = (ok x, s)
  release_failed c u (err e, s) = (err e, (release_session c u s).1)

  -- an error releases the session
  unfoldable pub or_release : ℕ → ℕ → SocketOp (Unit {0}) → SocketOp (Unit {0})
  or_release c u m s = release_failed c u (m s)

  unfoldable pub announce : ℕ → ℕ → Bool → SocketOp (Unit {0})
  announce c u true =
      or_release c u (set_online true c u) >>= λ a. or_release c u (register_session c u)
  announce c u false = return tt

  unfoldable pub initialize_chat_session : ℕ → ℕ → SocketOp (Unit {0})
  initialize_chat_session c u = acquire_session c u >>= announce c u

  unfoldable pub leave : ℕ → ℕ → Bool → SocketOp (Unit {0})
  leave c u true = set_online false c u
  leave c u false = return tt

  -- HandleChatOnClose of a session that was initialized
  unfoldable pub handle_chat_on_close : ℕ → ℕ → SocketOp (Unit {0})
  handle_chat_on_close c u = release_session c u >>= leave c u
