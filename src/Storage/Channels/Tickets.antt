-- ===== src/Storage/Channels/Tickets.antt =====
-- Tickets of pkg/chat/repo.go between instances of the service.
use nexus_chat.Base.{
  ◌≡◌, refl, ◌≢◌, ℕ, String, Bool, true, false, not, Option, none, some, str_eq, if◌then◌else◌,
  Bool-cases, inl, inr, arith, str_eq_iff,
}
use nexus_chat.Effects.{ok}
use nexus_chat.Stateful.{
  return, throw_if, ◌>>◌, Ensures, Keeps, Ensures-bind, Keeps-return, Keeps-after, Keeps-throw_if,
  Ensures-ok, Ensures-error,
}
use nexus_chat.Cassandra.{
  Unknown, unknown, Never, impossible, Database, Session, On, Stable, write, Ensures-statement,
  Keeps-statement,
}
use nexus_chat.Storage.{Tables, Error, Ticket, set_text, not_found, Keeps-require}
use nexus_chat.Storage.Channels.{
  put_ticket, holds_ticket, issue_web_socket_ticket, take_ticket, consume_web_socket_ticket,
}

-- There is no ticket under the hash.
unfoldable pub IsGone : String → Tables → Type 0
IsGone h t = t.tickets h ≡ none

take-IsGone : (h h' : String) (t : Tables) → IsGone h t → IsGone h (put_ticket h' none t)
unfolding IsGone set_text
take-IsGone h h' t g = ground arith

taken-IsGone : (h : String) (t : Tables) → IsGone h (put_ticket h none t)
unfolding IsGone set_text
taken-IsGone h t = rw ((str_eq_iff h h).1 refl) refl

issue-IsGone :
    (h h' : String) (k : Option Ticket) (t : Tables)
    → str_eq h' h ≡ false
    → IsGone h t
    → IsGone h (put_ticket h' k t)
unfolding IsGone set_text
issue-IsGone h h' k t e g = rw e g

module _ (session : Session Tables Error) (hash : String → String) where
  module _ (h : String) (stable : Stable session (IsGone h)) where
    take_ticket-IsGone :
        (h' : String) (k : Ticket) → Keeps (On (IsGone h)) (take_ticket session hash h' k)
    unfolding take_ticket
    take_ticket-IsGone h' k =
        Ensures-bind _ _ (Keeps-statement (IsGone h) session _ _ stable dropped)
          λ applied. Ensures-bind _ _ (Keeps-throw_if _ _) λ a. Keeps-return k
      where
        dropped :
            (t : Tables)
            → IsGone h t
            → IsGone h (if holds_ticket k (t.tickets h') then put_ticket h' none t else t)
        dropped t g = elim (Bool-cases (holds_ticket k (t.tickets h'))) [
          | inl e ↦ rw e (take-IsGone h h' t g)
          | inr e ↦ rw e g
        ]

    consume-IsGone : (x : String) → Keeps (On (IsGone h)) (consume_web_socket_ticket session hash x)
    unfolding consume_web_socket_ticket
    consume-IsGone x = Ensures-bind _ _ (Keeps-throw_if _ _) λ a.
        Ensures-bind _ _ (Keeps-statement (IsGone h) session _ _ stable λ t g. g)
          λ row. Ensures-bind _ _ (Keeps-require _ _ row) λ k. take_ticket-IsGone (hash x) k

    issues-IsGone :
        (x : String) (u c : ℕ) (token : String)
        → str_eq (hash x) h ≡ false
        → Keeps (On (IsGone h)) (issue_web_socket_ticket session hash (some x) u c token)
    unfolding issue_web_socket_ticket
    issues-IsGone x u c token e =
        Ensures-bind
          (write session (
            put_ticket (hash x)
              (some (record { user_id = u; channel_id = c; access_token = token }))))
          (λ a. return x)
          (Keeps-statement (IsGone h) session _ _ stable λ t g. issue-IsGone h (hash x) _ t e g)
          λ a. Keeps-return x

    takes-IsGone :
        (k : Ticket)
        → Ensures (On Unknown) (λ a. On (IsGone h)) (On Unknown) (take_ticket session hash h k)
    unfolding take_ticket Unknown
    takes-IsGone k =
        Ensures-bind _ _
          (Ensures-statement Unknown AfterDelete Unknown session _ _ (λ n t g. tt) (λ t g. tt)
            λ t g. (deleted t, tt))
          settle
      where
        AfterDelete : Bool → Tables → Type 0
        AfterDelete applied t = applied ≡ true → IsGone h t

        deleted :
            (t : Tables)
            → AfterDelete
                (holds_ticket k (t.tickets h))
                (if holds_ticket k (t.tickets h) then put_ticket h none t else t)
        deleted t e = rw e (taken-IsGone h t)

        settle :
            (applied : Bool)
            → Ensures
                (On (AfterDelete applied))
                (λ a. On (IsGone h))
                (On Unknown)
                (throw_if (not applied) not_found >> return k)
        settle true = record { at = λ d g. g refl }
        settle false = record { at = λ d g. tt }

    refuses :
        (k : Ticket)
        → Ensures (On (IsGone h)) (λ a. On Never) (On Unknown) (take_ticket session hash h k)
    unfolding take_ticket Unknown Never IsGone
    refuses k =
        Ensures-bind _ _
          (Ensures-statement (IsGone h) Refused Unknown session _ _ stable (λ t g. tt)
            λ t g. (refused t g, tt))
          settle
      where
        Refused : Bool → Tables → Type 0
        Refused applied t = applied ≡ false

        refused : (t : Tables) → IsGone h t → holds_ticket k (t.tickets h) ≡ false
        refused t g = rw g refl

        settle :
            (applied : Bool)
            → Ensures
                (On (Refused applied))
                (λ a. On Never)
                (On Unknown)
                (throw_if (not applied) not_found >> return k)
        settle true = record { at = λ d g. cc }
        settle false = record { at = λ d g. tt }

  -- What the other instances do with the hash `h`: the two halves of a consumption stand alone too,
  -- since those of different requests interleave.
  pub data Step (h : String) (d : Database Tables) : Database Tables → Type 0 where
    takes : (h' : String) (k : Ticket) → Step h d (take_ticket session hash h' k d).1
    consumes : (x : String) → Step h d (consume_web_socket_ticket session hash x d).1
    issues :
        (x : String) (u c : ℕ) (token : String)
        → str_eq (hash x) h ≡ false
        → Step h d (issue_web_socket_ticket session hash (some x) u c token d).1

  pub data Reach (h : String) (d : Database Tables) : Database Tables → Type 0 where
    here : Reach h d d
    next : {e f : Database Tables} → Reach h d e → Step h e f → Reach h d f

  Reach-IsGone :
      (h : String) {d e : Database Tables}
      → Stable session (IsGone h)
      → Reach h d e
      → IsGone h d.tables
      → IsGone h e.tables
  Reach-IsGone h s here g = g
  Reach-IsGone h s (next {e} r (takes h' k)) g =
      Keeps-after _ e (take_ticket-IsGone h s h' k) (Reach-IsGone h s r g)
  Reach-IsGone h s (next {e} r (consumes x)) g =
      Keeps-after _ e (consume-IsGone h s x) (Reach-IsGone h s r g)
  Reach-IsGone h s (next {e} r (issues x u c token q)) g =
      Keeps-after _ e (issues-IsGone h s x u c token q) (Reach-IsGone h s r g)

  consumption :
      (P Q : Tables → Type 0) (x : String)
      → Stable session P
      → ((k : Ticket)
          → Ensures (On P) (λ a. On Q) (On Unknown) (take_ticket session hash (hash x) k))
      → Ensures (On P) (λ a. On Q) (On Unknown) (consume_web_socket_ticket session hash x)
  unfolding consume_web_socket_ticket Unknown
  consumption P Q x stable half =
      Ensures-bind _ _ (Ensures-error (Keeps-throw_if {P = On P} _ _)) λ a.
        Ensures-bind _ _
          (Ensures-error (Keeps-statement P session (λ t. t.tickets (hash x)) _ stable λ t p. p))
          λ row. Ensures-bind _ _ (Ensures-error (Keeps-require (On P) _ row)) half

  -- Where no other instance puts a ticket under the hash: once a consumption of a ticket has succeeded,
  -- then after any further steps of consumptions and of issuing tickets of other hashes, neither a
  -- consumption of the ticket succeeds, nor the second half of one that read its row before.
  pub consume-again :
      (x : String) (d e f g : Database Tables) (k k' r : Ticket)
      → Stable session (IsGone (hash x))
      → consume_web_socket_ticket session hash x d ≡ (ok k, e)
      → Reach (hash x) e f
      → (consume_web_socket_ticket session hash x f ≢ (ok k', g))
        × (take_ticket session hash (hash x) r f ≢ (ok k', g))
  consume-again x d e f g k k' r stable c steps =
      let gone = Reach-IsGone (hash x) stable steps (
        Ensures-ok _ d e k
          (consumption Unknown (IsGone (hash x)) x (λ n t p. unknown (session.others n t))
            (takes-IsGone (hash x) stable))
          (unknown d.tables) c) in
      (
        λ p. impossible g.tables (
            Ensures-ok _ f g k'
              (consumption (IsGone (hash x)) Never x stable (refuses (hash x) stable)) gone p),
        λ p. impossible g.tables (Ensures-ok _ f g k' (refuses (hash x) stable r) gone p),
      )
