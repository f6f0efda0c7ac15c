-- ===== src/Storage/Messages/Markers.antt =====
-- The read markers of pkg/chat/repo.go while several instances of the service write them.
use nexus_chat.Base.{
  ap, ◌≡◌, ℕ, ◌≤◌, String, Bool, true, false, Option, none, some, if◌then◌else◌, arith, Bool-cases,
  inl, inr,
}
use nexus_chat.Chat.{Message}
use nexus_chat.Effects.{Result, ok}
use nexus_chat.Stateful.{
  Ensures, Keeps, Ensures-bind, Keeps-return, Keeps-after, Keeps-throw_if, Ensures-ok,
  Ensures-return,
}
use nexus_chat.Cassandra.{
  done, found_by, read-done, Unknown, Database, Session, On, Stable, Ensures-statement,
  Keeps-statement,
}
use nexus_chat.Storage.{Keeps-require, Tables, Error, set_pair-entry, set_pair}
use nexus_chat.Storage.Messages.{
  Settings, insert_message, insert_counted, put_message, count_message, mark_message_read,
  seed_marker, raise_marker, after_seed, set_marker, is_below, is_missing, or_zero,
  get_last_read_message_id, edit_message, delete_message_for_all, update_message,
}

abbrev AtLeast : ℕ → Option ℕ → Type 0
AtLeast i none = ◌≡◌ {A = Bool} true false
AtLeast i (some n) = i ≤ n

-- The marker of the user in the channel has come to `i`.
unfoldable pub IsRead : ℕ → ℕ → ℕ → Tables → Type 0
IsRead c u i t = AtLeast i (t.markers c u)

seeded : (i j : ℕ) (o : Option ℕ) → is_missing o ≡ true → AtLeast i o → AtLeast i (some j)
seeded i j none e h = cc
seeded i j (some n) e h = cc

raised : (i j : ℕ) (o : Option ℕ) → is_below j o ≡ true → AtLeast i o → AtLeast i (some j)
raised i j none e h = cc
raised i j (some n) e h = ground arith

module _ (c u i c' u' j : ℕ) (t : Tables) (h : IsRead c u i t) where
  seed-IsRead : IsRead c u i (if is_missing (t.markers c' u') then set_marker c' u' j t else t)
  unfolding IsRead
  seed-IsRead = elim (Bool-cases (is_missing (t.markers c' u'))) [
    | inl e ↦ rw e (set_pair-entry (AtLeast i) c' u' (some j) t.markers c u h (seeded i j _ e))
    | inr e ↦ rw e h
  ]

  raise-IsRead : IsRead c u i (if is_below j (t.markers c' u') then set_marker c' u' j t else t)
  unfolding IsRead
  raise-IsRead = elim (Bool-cases (is_below j (t.markers c' u'))) [
    | inl e ↦ rw e (set_pair-entry (AtLeast i) c' u' (some j) t.markers c u h (raised i j _ e))
    | inr e ↦ rw e h
  ]

module _ (session : Session Tables Error) where
  module _ (c u i : ℕ) (stable : Stable session (IsRead c u i)) where
    mark-IsRead : (c' u' j : ℕ) → Keeps (On (IsRead c u i)) (mark_message_read session c' u' j)
    unfolding mark_message_read seed_marker after_seed raise_marker
    mark-IsRead c' u' j =
        Ensures-bind _ _ (Keeps-statement (IsRead c u i) session _ _ stable λ t h. h) λ m.
          Ensures-bind _ _ (Keeps-require _ _ m) λ existing.
            Ensures-bind _ _
              (Keeps-statement (IsRead c u i) session _ _ stable
                λ t h. seed-IsRead c u i c' u' j t h)
              settle
      where
        settle : (applied : Bool) → Keeps (On (IsRead c u i)) (after_seed session c' u' j applied)
        settle true = Keeps-return tt
        settle false =
            Ensures-bind _ _
              (Keeps-statement (IsRead c u i) session _ _ stable
                λ t h. raise-IsRead c u i c' u' j t h)
              λ applied. Keeps-return tt

    put_message-IsRead :
        (m : Message) (t : Tables) → IsRead c u i t → IsRead c u i (put_message m t)
    unfolding IsRead
    put_message-IsRead m t h = h

    count_message-IsRead : (k : ℕ) (t : Tables) → IsRead c u i t → IsRead c u i (count_message k t)
    unfolding IsRead
    count_message-IsRead k t h = h

    update_message-IsRead :
        (k j : ℕ) (f : Message → Message) (t : Tables)
        → IsRead c u i t
        → IsRead c u i (update_message k j f t)
    unfolding IsRead
    update_message-IsRead k j f t h = h

    insert_counted-IsRead :
        (settings : Settings) (m : Message) (n : ℕ)
        → Keeps (On (IsRead c u i)) (insert_counted session settings m n)
    unfolding insert_counted
    insert_counted-IsRead settings m n = Ensures-bind _ _ (Keeps-throw_if _ _) λ a.
        Ensures-bind _ _ (Keeps-statement (IsRead c u i) session _ _ stable (put_message-IsRead m))
          λ b. Keeps-statement (IsRead c u i) session _ _ stable (count_message-IsRead m.channel_id)

    insert-IsRead :
        (settings : Settings) (m : Message)
        → Keeps (On (IsRead c u i)) (insert_message session settings m)
    unfolding insert_message
    insert-IsRead settings m =
        Ensures-bind _ _ (Keeps-statement (IsRead c u i) session _ _ stable λ t h. h)
          (insert_counted-IsRead settings m)

    edit-IsRead :
        (k j : ℕ) (payload : String) (at : ℕ)
        → Keeps (On (IsRead c u i)) (edit_message session k j payload at)
    unfolding edit_message
    edit-IsRead k j payload at =
        Keeps-statement (IsRead c u i) session _ _ stable (update_message-IsRead k j _)

    delete-IsRead : (k j by : ℕ) → Keeps (On (IsRead c u i)) (delete_message_for_all session k j by)
    unfolding delete_message_for_all
    delete-IsRead k j by =
        Keeps-statement (IsRead c u i) session _ _ stable (update_message-IsRead k j _)

  -- The operations of the repository that write messages, their number and markers.
  pub data Step (d : Database Tables) : Database Tables → Type 0 where
    inserts : (settings : Settings) (m : Message) → Step d (insert_message session settings m d).1
    marks : (c u j : ℕ) → Step d (mark_message_read session c u j d).1
    edits : (c j : ℕ) (payload : String) (at : ℕ) → Step d (edit_message session c j payload at d).1
    deletes : (c j by : ℕ) → Step d (delete_message_for_all session c j by d).1

  pub data Reach (d : Database Tables) : Database Tables → Type 0 where
    here : Reach d d
    next : {e f : Database Tables} → Reach d e → Step e f → Reach d f

  Step-IsRead :
      (c u i : ℕ) {d e : Database Tables}
      → Stable session (IsRead c u i)
      → Step d e
      → IsRead c u i d.tables
      → IsRead c u i e.tables
  Step-IsRead c u i {d} s (inserts settings m) h =
      Keeps-after _ d (insert-IsRead c u i s settings m) h
  Step-IsRead c u i {d} s (marks c' u' j) h = Keeps-after _ d (mark-IsRead c u i s c' u' j) h
  Step-IsRead c u i {d} s (edits c' j p at) h = Keeps-after _ d (edit-IsRead c u i s c' j p at) h
  Step-IsRead c u i {d} s (deletes c' j by) h = Keeps-after _ d (delete-IsRead c u i s c' j by) h

  Reach-IsRead :
      (c u i : ℕ) {d e : Database Tables}
      → Stable session (IsRead c u i)
      → Reach d e
      → IsRead c u i d.tables
      → IsRead c u i e.tables
  Reach-IsRead c u i s here h = h
  Reach-IsRead c u i s (next r step) h = Step-IsRead c u i s step (Reach-IsRead c u i s r h)

  module _ (c u j : ℕ) (stable : (i : ℕ) → Stable session (IsRead c u i)) where
    abbrev AfterSeed : Bool → Tables → Type 0
    AfterSeed true t = IsRead c u j t
    AfterSeed false t = IsRead c u 0 t

    set_marker-own : (t : Tables) → IsRead c u j (set_marker c u j t)
    unfolding IsRead set_pair
    set_marker-own t = ground arith

    not_below : (o : Option ℕ) → AtLeast 0 o → is_below j o ≡ false → AtLeast j o
    not_below none h e = h
    not_below (some n) h e = ground arith

    not_missing : (o : Option ℕ) → is_missing o ≡ false → AtLeast 0 o
    not_missing none e = cc
    not_missing (some n) e = omega arith

    seeds :
        (t : Tables)
        → AfterSeed
            (is_missing (t.markers c u))
            (if is_missing (t.markers c u) then set_marker c u j t else t)
    unfolding IsRead
    seeds t = elim (Bool-cases (is_missing (t.markers c u))) [
      | inl e ↦ rw e (set_marker-own t)
      | inr e ↦ rw e (not_missing (t.markers c u) e)
    ]

    raises :
        (t : Tables)
        → IsRead c u 0 t
        → IsRead c u j (if is_below j (t.markers c u) then set_marker c u j t else t)
    unfolding IsRead
    raises t h = elim (Bool-cases (is_below j (t.markers c u))) [
      | inl e ↦ rw e (set_marker-own t)
      | inr e ↦ rw e (not_below (t.markers c u) h e)
    ]

    marks-IsRead :
        Ensures (On Unknown) (λ a. On (IsRead c u j)) (On Unknown) (mark_message_read session c u j)
    unfolding mark_message_read seed_marker after_seed raise_marker Unknown
    marks-IsRead =
        Ensures-bind _ _ (Keeps-statement Unknown session _ _ (λ n t h. tt) λ t h. tt) λ m.
          Ensures-bind _ _ (Keeps-require _ _ m) λ existing.
            Ensures-bind _ _
              (Ensures-statement Unknown AfterSeed Unknown session _ _ (λ n t h. tt) (λ t h. tt)
                λ t h. (seeds t, tt))
              settle
      where
        settle :
            (applied : Bool)
            → Ensures
                (On (AfterSeed applied))
                (λ a. On (IsRead c u j))
                (On Unknown)
                (after_seed session c u j applied)
        settle true = Ensures-return tt λ d h. h
        settle false =
            Ensures-bind _ _
              (Ensures-statement (IsRead c u 0) (λ a. IsRead c u j) Unknown session _ _ (stable 0)
                (λ t h. tt) λ t h. (raises t h, tt))
              λ applied. Ensures-return tt λ d h. h

    reads : (o : Option ℕ) → AtLeast j o → j ≤ or_zero o
    reads none h = cc
    reads (some k) h = h

    -- Where no other instance takes a marker back or away: once MarkMessageRead has succeeded for a
    -- message, then after any further operations of the repository that write messages, their number
    -- and markers, however their statements end, and if the next statement succeeds,
    -- GetLastReadMessageID of that user and channel answers this message or a later one.
    pub get_last_read-mark :
        (d e f : Database Tables)
        → mark_message_read session c u j d ≡ (ok tt, e)
        → Reach e f
        → session.works f.statements ≡ done
        → (n : ℕ) × (((get_last_read_message_id session c u f).0 ≡ ok n) × (j ≤ n))
    unfolding get_last_read_message_id IsRead Unknown
    get_last_read-mark d e f m r w =
        let kept = Reach-IsRead c u j (stable j) r (Ensures-ok _ d e tt marks-IsRead tt m) in
        (
          or_zero ((found_by session f).markers c u),
          (
            ap (λ (x : Result Error ℕ × Database Tables). x.0)
                (read-done session (λ t. or_zero (t.markers c u)) f w),
            reads ((found_by session f).markers c u) (stable j f.statements f.tables kept),
          ),
        )
