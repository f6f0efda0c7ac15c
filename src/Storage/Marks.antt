-- ===== src/Storage/Marks.antt =====
-- pkg/chat/repo.go: the reactions and pins of messages, and the messages of a search.
--
-- `lower` is strings.ToLower, `object_key` what encoding/json reads from the text of a file message,
-- and `digits` a number as strconv.FormatUint writes it. GetReactions collects its rows in a map and
-- returns the entries in no fixed order; here they stand by their first row.
pub mod Extensions
pub mod Searches
use Prim.Native.Char.{code}
use Prim.Native.String.{String}
use nexus_chat.Base.{
  ℕ, suc, zero, Bool, true, false, not, ◌&&◌, ◌||◌, Option, none, some, List, [], ◌∷◌, ◌++◌, map,
  length, ltb, ◌==◌, if◌then◌else◌, str_eq, split,
}
use nexus_chat.Chat.{Message, ReactionSummary, EventKind, text, file}
use nexus_chat.Effects.{Result, ok, err}
use nexus_chat.Stateful.{Op, return, throw, ◌>>=◌, ◌>>◌}
use nexus_chat.Cassandra.{Database, Session, statement, write, read, attempt, or_none}
use nexus_chat.Storage.{Tables, Error, Pin, Chats, set_at, set_pair}

-- a row of message_reactions, by emoji and user
abbrev pub same_reaction : String → ℕ → String × ℕ → Bool
same_reaction e u row = str_eq row.0 e && row.1 == u

unfoldable pub drop_reaction : String → ℕ → List (String × ℕ) → List (String × ℕ)
drop_reaction e u [] = []
drop_reaction e u (r ∷ rs) =
    let rest = drop_reaction e u rs in if same_reaction e u r then rest else r ∷ rest

-- `before` is the order of the rows
unfoldable pub insert_reaction :
    (String × ℕ → String × ℕ → Bool) → String × ℕ → List (String × ℕ) → List (String × ℕ)
insert_reaction before r [] = r ∷ []
insert_reaction before r (x ∷ xs) =
    let rest = insert_reaction before r xs in
    if same_reaction r.0 r.1 x then r ∷ xs else (if before r x then r ∷ x ∷ xs else x ∷ rest)

-- emojiMap[emoji] = append(emojiMap[emoji], userID)
unfoldable pub add_reactor : String → ℕ → List (String × List ℕ) → List (String × List ℕ)
add_reactor e u [] = (e, u ∷ []) ∷ []
add_reactor e u ((f, us) ∷ groups) =
    let rest = add_reactor e u groups in
    if str_eq f e then (f, us ++ (u ∷ [])) ∷ groups else (f, us) ∷ rest

unfoldable pub group_from : List (String × List ℕ) → List (String × ℕ) → List (String × List ℕ)
group_from groups [] = groups
group_from groups ((e, u) ∷ rows) = group_from (add_reactor e u groups) rows

unfoldable pub summary : (ℕ → String) → String × List ℕ → ReactionSummary
summary digits (e, us) = record { emoji = e; count = length us; users = map digits us }

unfoldable pub has_prefix : String → String → Bool
has_prefix String.[] t = true
has_prefix (String.◌∷◌ c s) String.[] = false
has_prefix (String.◌∷◌ c s) (String.◌∷◌ d t) = code c == code d && has_prefix s t

-- strings.Contains(t, s)
unfoldable pub contains : String → String → Bool
contains s String.[] = has_prefix s ""
contains s (String.◌∷◌ d t) =
    let rest = contains s t in if has_prefix s (String.◌∷◌ d t) then true else rest

unfoldable pub contains_ignore_case : (String → String) → String → String → Bool
contains_ignore_case lower s t = contains (lower t) (lower s)

abbrev pub is_text : EventKind → Bool
is_text text = true
is_text _ = false

abbrev pub is_file : EventKind → Bool
is_file file = true
is_file _ = false

unfoldable pub is_found : (String → String) → String → Message → Bool
is_found lower query m =
    not m.deleted_for_all && (is_text m.event && contains_ignore_case lower m.payload query)

unfoldable pub one_of : String → List String → Bool
one_of s [] = false
one_of s (x ∷ xs) = str_eq s x || one_of s xs

unfoldable pub matches_type : String → String → Bool
matches_type kind ext =
    if str_eq kind "image"
    then one_of ext ("jpg" ∷ "jpeg" ∷ "png" ∷ "gif" ∷ "webp" ∷ [])
    else (if str_eq kind "video"
        then one_of ext ("mp4" ∷ "webm" ∷ "mov" ∷ [])
        else (if str_eq kind "audio"
            then one_of ext ("mp3" ∷ "wav" ∷ "ogg" ∷ "m4a" ∷ [])
            else (if str_eq kind "document"
                then one_of ext ("pdf" ∷ "doc" ∷ "docx" ∷ "txt" ∷ "xls" ∷ "xlsx" ∷ [])
                else false)))

unfoldable pub last_part : String → List String → String
last_part s [] = s
last_part s (x ∷ xs) = last_part x xs

-- the part of a key after its last dot, if it has one
abbrev pub extension_of_parts : (String → String) → List String → String
extension_of_parts lower [] = ""
extension_of_parts lower (p ∷ []) = ""
extension_of_parts lower (p ∷ q ∷ ps) = lower (last_part q ps)

abbrev pub extension : (String → String) → Option String → String
extension lower none = ""
extension lower (some key) = extension_of_parts lower (split 46 key)

unfoldable pub is_media : (String → String) → (String → Option String) → String → Message → Bool
is_media lower object_key kind m =
    not (m.deleted_for_all || not (is_file m.event))
    && (str_eq kind ""
        || str_eq kind "all"
        || matches_type kind (extension lower (object_key m.payload)))

-- the loop of both: rows are read while fewer than `limit` are kept
unfoldable pub collect : (Message → Bool) → (limit count : ℕ) → List Message → List Message
collect keep limit count [] = []
collect keep limit count (m ∷ ms) =
    let with_this = collect keep limit (suc count) ms in
    let without = collect keep limit count ms in
    if ltb count limit then (if keep m then m ∷ with_this else without) else []

unfoldable pub drop_pin : ℕ → List Pin → List Pin
drop_pin at [] = []
drop_pin at (p ∷ ps) = let rest = drop_pin at ps in if p.pinned_at == at then rest else p ∷ rest

unfoldable pub pin_at : ℕ → List Pin → Option Pin
pin_at at [] = none
pin_at at (p ∷ ps) = let rest = pin_at at ps in if p.pinned_at == at then some p else rest

unfoldable pub pin_times : List Pin → List ℕ
pin_times [] = []
pin_times (p ∷ ps) = p.pinned_at ∷ pin_times ps

-- the message of a row, 0 where it is not read
abbrev pub pinned_message : Option (Option Pin) → ℕ
pinned_message (some (some p)) = p.message_id
pinned_message _ = 0

module _ (session : Session Tables Error) where
  unfoldable pub add_reaction :
      (String × ℕ → String × ℕ → Bool) → ℕ → ℕ → ℕ → String → Chats (Unit {0})
  add_reaction before c i u e = write session (λ t. record t {
    reactions = set_pair c i (insert_reaction before (e, u) (t.reactions c i)) t.reactions;
  })

  unfoldable pub remove_reaction : ℕ → ℕ → ℕ → String → Chats (Unit {0})
  remove_reaction c i u e =
      write session (λ t. record t {
        reactions = set_pair c i (drop_reaction e u (t.reactions c i)) t.reactions;
      })

  unfoldable pub get_reactions : (ℕ → String) → ℕ → ℕ → Chats (List ReactionSummary)
  get_reactions digits c i =
      read session (λ t. map (summary digits) (group_from [] (t.reactions c i)))

  -- `at` is the time that now() of the statement gives, later than that of every other pin
  unfoldable pub pin_message : (at : ℕ) → ℕ → ℕ → ℕ → Chats (Unit {0})
  pin_message at c i by = write session (λ t. record t {
    pins = set_at c (record { pinned_at = at; message_id = i; pinned_by = by } ∷ t.pins c) t.pins;
  })

  unfoldable pub unpin_first : ℕ → ℕ → List ℕ → Chats (Unit {0})
  unpin_first c i [] = return tt
  unpin_first c i (at ∷ ats) = attempt (read session (λ t. pin_at at (t.pins c))) >>= λ row.
      if pinned_message row == i
      then write session (λ t. record t { pins = set_at c (drop_pin at (t.pins c)) t.pins })
      else unpin_first c i ats

  unfoldable pub unpin_message : ℕ → ℕ → Chats (Unit {0})
  unpin_message c i = read session (λ t. pin_times (t.pins c)) >>= unpin_first c i

  unfoldable pub get_pinned_messages : ℕ → Chats (List Pin)
  get_pinned_messages c = read session (λ t. t.pins c)

  unfoldable pub search_messages : (String → String) → ℕ → String → ℕ → Chats (List Message)
  search_messages lower c query limit =
      read session (λ t. collect (is_found lower query) limit 0 (t.messages c))

  unfoldable pub list_media_messages :
      (String → String) → (String → Option String) → ℕ → String → ℕ → Chats (List Message)
  list_media_messages lower object_key c kind limit =
      read session (λ t. collect (is_media lower object_key kind) limit 0 (t.messages c))
