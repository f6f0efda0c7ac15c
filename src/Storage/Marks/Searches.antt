-- ===== src/Storage/Marks/Searches.antt =====
-- What the searches of pkg/chat/repo.go return, against a filter and a prefix of the rows.
use nexus_chat.Base.{
  some, none, ◌≡◌, refl, ℕ, zero, suc, ◌+◌, Bool, true, false, ◌&&◌, ◌||◌, List, [], ◌∷◌, ltb,
  if◌then◌else◌, arith, String, Option, Bool-cases, subst, sym, ap, ◌∙◌, ◌⊎◌, inl, inr, str_eq,
  str_eq_iff, Lacks,
}
use nexus_chat.Chat.{Message, EventKind, text, action, file, edit, delete, reaction, pin}
use nexus_chat.Effects.{ok}
use nexus_chat.Cassandra.{Database, Session, done, found_by, read-done}
use nexus_chat.Storage.{Tables, Error}
use nexus_chat.Storage.Marks.Extensions.{
  IsAfterDot, IsAfterDot-Lacks, IsAfterDot-same, split-Dotted,
}
use nexus_chat.Storage.Marks.{
  last_part, collect, is_found, is_media, is_text, is_file, contains, contains_ignore_case, one_of,
  matches_type, extension, search_messages, list_media_messages,
}

unfoldable pub filter : (Message → Bool) → List Message → List Message
filter p [] = []
filter p (m ∷ ms) = let rest = filter p ms in if p m then m ∷ rest else rest

unfoldable pub first : ℕ → List Message → List Message
first zero ms = []
first (suc n) [] = []
first (suc n) (m ∷ ms) = m ∷ first n ms

first-nil : (n : ℕ) → first n [] ≡ []
unfolding first
first-nil zero = refl
first-nil (suc n) = refl

collect-filter :
    (p : Message → Bool) (left count : ℕ) (ms : List Message)
    → collect p (count + left) count ms ≡ first left (filter p ms)
unfolding collect filter first
collect-filter p left count [] = rw (first-nil left) refl
collect-filter p zero count (m ∷ ms) =
    let full : ltb count (count + 0) ≡ false = ground arith in rw full refl
collect-filter p (suc left) count (m ∷ ms) =
    let room : ltb count (count + suc left) ≡ true = ground arith in
    let moved : count + suc left ≡ suc count + left = omega arith in
    let rest : collect p (count + suc left) (suc count) ms ≡ first left (filter p ms) =
      subst (λ (n : ℕ). collect p n (suc count) ms ≡ first left (filter p ms)) (sym moved)
        (collect-filter p left (suc count) ms) in
    elim (Bool-cases (p m)) [
      | inl e ↦ rw (room, e, rest) refl
      | inr e ↦ rw (room, e) (collect-filter p (suc left) count ms)
    ]

collect-first :
    (p : Message → Bool) (n : ℕ) (ms : List Message) → collect p n 0 ms ≡ first n (filter p ms)
collect-first p n ms =
    let whole : 0 + n ≡ n = omega arith in
    subst (λ (k : ℕ). collect p k 0 ms ≡ first n (filter p ms)) whole (collect-filter p n 0 ms)

-- a text that is not deleted and contains the query in any case
pub record IsFound (lower : String → String) (query : String) (m : Message) : Type 0 where
  pub not_deleted : m.deleted_for_all ≡ false
  pub is_a_text : m.event ≡ text
  pub with_query : contains (lower query) (lower m.payload) ≡ true

-- The kinds of media, each with the extensions of its files.
abbrev pub is_listed : String → String → Bool
is_listed kind ext =
    (str_eq kind "image" && one_of ext ("webp" ∷ "gif" ∷ "png" ∷ "jpeg" ∷ "jpg" ∷ []))
    || (str_eq kind "video" && one_of ext ("mov" ∷ "webm" ∷ "mp4" ∷ []))
    || (str_eq kind "audio" && one_of ext ("m4a" ∷ "ogg" ∷ "wav" ∷ "mp3" ∷ []))
    || (str_eq kind "document" && one_of ext ("xlsx" ∷ "xls" ∷ "txt" ∷ "docx" ∷ "doc" ∷ "pdf" ∷ []))

-- The key of a file has, after its last dot, what in lower case is an extension of the kind.
abbrev pub IsListed : (String → String) → String → Option String → Type 0
IsListed lower kind o =
    (key : String) × ((rest : String) × ((o ≡ some key)
        × (IsAfterDot rest key × (Lacks 46 rest × (is_listed kind (lower rest) ≡ true)))))

-- a file that is not deleted and is of the kind, where one is asked for
pub record IsMedia (lower : String → String) (object_key : String → Option String) (kind : String)
    (m : Message) : Type 0 where
  pub not_deleted : m.deleted_for_all ≡ false
  pub is_a_file : m.event ≡ file
  pub of_kind : (kind ≡ "") ⊎ ((kind ≡ "all") ⊎ IsListed lower kind (object_key m.payload))

-- The test is true of exactly these messages.
abbrev pub Decides : (Message → Bool) → (Message → Type 0) → Type 0
Decides p P = (m : Message) → ((p m ≡ true) → P m) × (P m → (p m ≡ true))

matches_type-is_listed : (kind ext : String) → matches_type kind ext ≡ is_listed kind ext
unfolding matches_type one_of
matches_type-is_listed kind ext = elim (Bool-cases (str_eq kind "image")) [
  | inl e ↦
      subst (λ k. matches_type k ext ≡ is_listed k ext) (sym ((str_eq_iff kind "image").0 e))
        (ground arith)
  | inr a ↦ elim (Bool-cases (str_eq kind "video")) [
    | inl e ↦
        subst (λ k. matches_type k ext ≡ is_listed k ext) (sym ((str_eq_iff kind "video").0 e))
          (ground arith)
    | inr b ↦ elim (Bool-cases (str_eq kind "audio")) [
      | inl e ↦
          subst (λ k. matches_type k ext ≡ is_listed k ext) (sym ((str_eq_iff kind "audio").0 e))
            (ground arith)
      | inr c ↦ rw (a, b, c) (ground arith)
    ]
  ]
]

-- Two tests of one property filter alike.
filter-Decides :
    (p q : Message → Bool) (P : Message → Type 0) (ms : List Message)
    → Decides p P
    → Decides q P
    → filter p ms ≡ filter q ms
unfolding filter
filter-Decides p q P [] d e = refl
filter-Decides p q P (m ∷ ms) d e =
    let alike : p m ≡ q m =
      ground
        (arith, λ (h : p m ≡ true). (e m).1 ((d m).0 h), λ (h : q m ≡ true). (d m).1 ((e m).0 h)) in
    rw (alike, filter-Decides p q P ms d e) refl

text_event : (k : EventKind) → is_text k ≡ true → k ≡ text
text_event text e = refl
text_event action e = absurd cc
text_event file e = absurd cc
text_event edit e = absurd cc
text_event delete e = absurd cc
text_event reaction e = absurd cc
text_event pin e = absurd cc

file_event : (k : EventKind) → is_file k ≡ true → k ≡ file
file_event file e = refl
file_event action e = absurd cc
file_event text e = absurd cc
file_event edit e = absurd cc
file_event delete e = absurd cc
file_event reaction e = absurd cc
file_event pin e = absurd cc

pub is_found-Decides :
    (lower : String → String) (query : String)
    → Decides (is_found lower query) (IsFound lower query)
unfolding is_found contains_ignore_case
is_found-Decides lower query m = (
  λ e. record {
    not_deleted = ground (arith, e);
    is_a_text = text_event m.event (ground (arith, e));
    with_query = ground (arith, e);
  },
  λ f. rw (f.not_deleted, f.is_a_text, f.with_query) refl,
)

extension-IsListed :
    (lower : String → String) (kind : String) (o : Option String)
    → is_listed kind (extension lower o) ≡ true
    → IsListed lower kind o
unfolding one_of
extension-IsListed lower kind none e = absurd (ground (arith, e))
extension-IsListed lower kind (some key) e = elim (split-Dotted key) [
  | inl (p, l) ↦
      absurd (let none_listed : is_listed kind "" ≡ true = rw p at e in ground (arith, none_listed))
  | inr (p, (q, (ps, (x, (d, l))))) ↦ (key, (last_part q ps, (refl, (d, (l, (rw x at e))))))
]

IsListed-extension :
    (lower : String → String) (kind : String) (o : Option String)
    → IsListed lower kind o
    → is_listed kind (extension lower o) ≡ true
IsListed-extension lower kind o (key, (rest, (e, (d, (l, listed))))) =
    rw e (elim (split-Dotted key) [
      | inl (p, m) ↦ absurd (IsAfterDot-Lacks rest key m d)
      | inr (p, (q, (ps, (x, (g, m))))) ↦
          let last : rest ≡ last_part q ps = IsAfterDot-same rest (last_part q ps) key d l g m in
          rw x (subst (λ r. is_listed kind (lower r) ≡ true) last listed)
    ])

wanted_kind :
    (kind : String) (b : Bool)
    → (str_eq kind "" || str_eq kind "all" || b) ≡ true
    → (kind ≡ "") ⊎ ((kind ≡ "all") ⊎ (b ≡ true))
wanted_kind kind b e = elim (Bool-cases (str_eq kind "")) [
  | inl x ↦ inl ((str_eq_iff kind "").0 x)
  | inr x ↦ elim (Bool-cases (str_eq kind "all")) [
    | inl y ↦ inr (inl ((str_eq_iff kind "all").0 y))
    | inr y ↦ inr (inr (ground (arith, e, x, y)))
  ]
]

wanted_test :
    (kind : String) (b : Bool)
    → (kind ≡ "") ⊎ ((kind ≡ "all") ⊎ (b ≡ true))
    → (str_eq kind "" || str_eq kind "all" || b) ≡ true
wanted_test kind b (inl e) = ground (arith, (str_eq_iff kind "").1 e)
wanted_test kind b (inr (inl e)) = ground (arith, (str_eq_iff kind "all").1 e)
wanted_test kind b (inr (inr e)) = ground (arith, e)

pub is_media-Decides :
    (lower : String → String) (object_key : String → Option String) (kind : String)
    → Decides (is_media lower object_key kind) (IsMedia lower object_key kind)
unfolding is_media
is_media-Decides lower object_key kind m =
    let ext = extension lower (object_key m.payload) in
    let same : matches_type kind ext ≡ is_listed kind ext = matches_type-is_listed kind ext in
    (
      λ e. record {
        not_deleted = ground (arith, e);
        is_a_file = file_event m.event (ground (arith, e));
        of_kind = media_kind (wanted_kind kind (is_listed kind ext) (ground (arith, e, same)));
      },
      λ f.
          let wanted = wanted_test kind (is_listed kind ext) (test_kind f.of_kind) in
          rw (f.not_deleted, f.is_a_file) (ground (arith, same, wanted)),
    )
  where
    media_kind :
        (kind ≡ "")
          ⊎ ((kind ≡ "all") ⊎ (is_listed kind (extension lower (object_key m.payload)) ≡ true))
        → (kind ≡ "") ⊎ ((kind ≡ "all") ⊎ IsListed lower kind (object_key m.payload))
    media_kind (inl a) = inl a
    media_kind (inr (inl a)) = inr (inl a)
    media_kind (inr (inr a)) = inr (inr (extension-IsListed lower kind (object_key m.payload) a))

    test_kind :
        (kind ≡ "") ⊎ ((kind ≡ "all") ⊎ IsListed lower kind (object_key m.payload))
        → (kind ≡ "")
          ⊎ ((kind ≡ "all") ⊎ (is_listed kind (extension lower (object_key m.payload)) ≡ true))
    test_kind (inl a) = inl a
    test_kind (inr (inl a)) = inr (inl a)
    test_kind (inr (inr a)) = inr (inr (IsListed-extension lower kind (object_key m.payload) a))

module _ (session : Session Tables Error) (lower : String → String) (c : ℕ) (limit : ℕ) where
  -- For any test `p` that is true of exactly the texts that are not deleted and contain the query in
  -- any case, and any test `q` that is true of exactly the files that are not deleted and are of the
  -- kind (any file for the kinds "" and "all", else one whose key has, after its last dot, what in
  -- lower case is an extension that is listed for the kind): if
  -- its statement succeeds, SearchMessages returns the rows of the channel with `p`, and
  -- ListMediaMessages those with `q`, each the first up to the limit.
  pub search_messages-filter :
      (object_key : String → Option String) (query kind : String) (p q : Message → Bool)
      (d : Database Tables)
      → Decides p (IsFound lower query)
      → Decides q (IsMedia lower object_key kind)
      → session.works d.statements ≡ done
      → ((search_messages session lower c query limit d).0
          ≡ ok (first limit (filter p ((found_by session d).messages c))))
        × ((list_media_messages session lower object_key c kind limit d).0
            ≡ ok (first limit (filter q ((found_by session d).messages c))))
  unfolding search_messages list_media_messages
  search_messages-filter object_key query kind p q d found media w =
      let rows = (found_by session d).messages c in
      let searched =
        collect-first (is_found lower query) limit rows
        ∙ ap (first limit) (
            filter-Decides (is_found lower query) p (IsFound lower query) rows
              (is_found-Decides lower query) found) in
      let listed =
        collect-first (is_media lower object_key kind) limit rows
        ∙ ap (first limit) (
            filter-Decides (is_media lower object_key kind) q (IsMedia lower object_key kind) rows
              (is_media-Decides lower object_key kind) media) in
      (rw (read-done session _ d w) (ap ok searched), rw (read-done session _ d w) (ap ok listed))
