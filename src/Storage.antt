-- ===== src/Storage.antt =====
-- pkg/chat/repo.go: the tables behind the chat service.
--
-- A table is a function of its keys, or of its partition key with a list of rows in the order of the
-- table. Columns that no statement reads are left out. Where the code reads the clock, the operation
-- takes the time; `driver` holds what the code uses of the database driver and of other packages.
pub mod Messages
pub mod Marks
pub mod Channels
pub mod Rooms
use nexus_chat.Base.{
  ◌≡◌, refl, subst, arith, Bool-cases, inl, inr, ==_iff, ℕ, String, Bool, true, false, not, ◌&&◌,
  ◌||◌, Option, none, some, List, [], ◌∷◌, ◌==◌, ltb, str_eq, if◌then◌else◌,
}
use nexus_chat.Chat.{Message, Role, Room, text}
use nexus_chat.Effects.{Result, ok, err}
use nexus_chat.Stateful.{Op, return, throw, Keeps, Keeps-return, Keeps-throw}
use nexus_chat.Cassandra.{Database, Session}

-- a row of pinned_messages; `pinned_at` orders them
pub record Pin : Type 0 where
  pub pinned_at : ℕ
  pub message_id : ℕ
  pub pinned_by : ℕ

pub record Ticket : Type 0 where
  pub user_id : ℕ
  pub channel_id : ℕ
  pub access_token : String

pub record RoomRow : Type 0 where
  pub room : Room
  pub archived : Bool

pub record Tables : Type 0 where
  pub counters : ℕ → Option ℕ
  -- by channel, the newest identifier first
  pub messages : ℕ → List Message
  -- last_read_message_id by channel and user
  pub markers : ℕ → ℕ → Option ℕ
  -- emoji and user by channel and message
  pub reactions : ℕ → ℕ → List (String × ℕ)
  pub pins : ℕ → List Pin
  pub members : ℕ → List ℕ
  pub kinds : ℕ → Option String
  pub roles : ℕ → ℕ → Option Role
  pub rooms : ℕ → Option RoomRow
  pub invites : String → Option ℕ
  pub rooms_by_user : ℕ → List Room
  pub direct_by_id : ℕ → Option (ℕ × ℕ)
  pub direct_by_pair : ℕ → ℕ → Option ℕ
  pub tickets : String → Option Ticket

pub data Error : Type 0 where
  unavailable not_found message_not_found exceeds_limit bad_page direct_exists : Error
  token_failed random_failed : Error

abbrev pub Chats : Type 0 → Type 0
Chats A = Op (Database Tables) Error A

-- a table with one entry replaced
unfoldable pub set_at {ℓ} : {A : Type ℓ} → ℕ → A → (ℕ → A) → ℕ → A
set_at k v f x = if x == k then v else f x

unfoldable pub set_pair {ℓ} : {A : Type ℓ} → ℕ → ℕ → A → (ℕ → ℕ → A) → ℕ → ℕ → A
set_pair a b v f x y = if x == a && y == b then v else f x y

unfoldable pub set_text {ℓ} : {A : Type ℓ} → String → A → (String → A) → String → A
set_text k v f x = if str_eq k x then v else f x

-- a row that a statement must find
abbrev pub require : {A : Type 0} → Error → Option A → Chats A
require e none = throw e
require e (some a) = return a

abbrev pub blank_message : ℕ → ℕ → Message
blank_message channel i = record {
  message_id = i;
  event = text;
  channel_id = channel;
  user_id = 0;
  payload = "";
  time = 0;
  edited_at = 0;
  deleted_for_all = false;
  deleted_by = 0;
  reactions = [];
  is_pinned = false;
  parent_id = 0;
  reply_preview = none;
}

-- INSERT and UPDATE of some columns of a row, which makes the row if it is not there
unfoldable pub upsert : ℕ → ℕ → (Message → Message) → List Message → List Message
upsert c i f [] = f (blank_message c i) ∷ []
upsert c i f (m ∷ ms) =
    let rest = upsert c i f ms in
    if m.message_id == i
    then f m ∷ ms
    else (if ltb m.message_id i then f (blank_message c i) ∷ m ∷ ms else m ∷ rest)

unfoldable pub find : ℕ → List Message → Option Message
find i [] = none
find i (m ∷ ms) = let rest = find i ms in if m.message_id == i then some m else rest

pub entry-ap {ℓ} : {A : Type ℓ} (f : ℕ → ℕ → A) {x a y b : ℕ} → x ≡ a → y ≡ b → f x y ≡ f a b
entry-ap f p q = rw (p, q) refl

pub set_pair-cases {ℓ} :
    {A : Type ℓ} (P : A → Type 0) (a b : ℕ) (v : A) (f : ℕ → ℕ → A) (x y : ℕ)
    → P (f x y)
    → (x ≡ a → y ≡ b → P v)
    → P (set_pair a b v f x y)
unfolding set_pair
set_pair-cases P a b v f x y old new = elim (Bool-cases (x == a && y == b)) [
  | inl e ↦ rw e (new ((==_iff x a).0 (ground arith)) ((==_iff y b).0 (ground arith)))
  | inr e ↦ rw e old
]

pub set_pair-own {ℓ} : {A : Type ℓ} (a b : ℕ) (v : A) (f : ℕ → ℕ → A) → set_pair a b v f a b ≡ v
unfolding set_pair
set_pair-own a b v f = let own : (a == a && b == b) ≡ true = ground arith in rw own refl

-- What holds of the two new entries, and of the two old ones that are asked for.
pub set_pair-both {ℓ} :
    {A B : Type ℓ} (P : A → B → Type 0) (a b : ℕ) (v : A) (w : B) (f : ℕ → ℕ → A) (g : ℕ → ℕ → B)
    (x y : ℕ)
    → P v w
    → P (f x y) (g x y)
    → P (set_pair a b v f x y) (set_pair a b w g x y)
unfolding set_pair
set_pair-both P a b v w f g x y new old = elim (Bool-cases (x == a && y == b)) [
  | inl e ↦ rw e new
  | inr e ↦ rw e old
]

-- What holds of the new entry, and of the entry that is asked for, holds of the entry after.
pub set_pair-entry {ℓ} :
    {A : Type ℓ} (P : A → Type 0) (a b : ℕ) (v : A) (f : ℕ → ℕ → A) (x y : ℕ)
    → P (f x y)
    → (P (f a b) → P v)
    → P (set_pair a b v f x y)
set_pair-entry P a b v f x y old new =
    set_pair-cases P a b v f x y old λ p q. new (subst P (entry-ap f p q) old)

pub Keeps-require :
    {A : Type 0} (P : Database Tables → Type 0) (e : Error) (o : Option A) → Keeps P (require e o)
Keeps-require P e none = Keeps-throw e
Keeps-require P e (some a) = Keeps-return a
