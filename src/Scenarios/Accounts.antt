-- ===== src/Scenarios/Accounts.antt =====
-- A user who asks for the name of another.
use nexus_chat.Base.{refl, str_eq, if◌then◌else◌, false, none, some}
use nexus_chat.Accounts.{User, usernames, Keys, done, Services, create_user, local}
use nexus_chat.Accounts.Claims.{IsHeld}
use nexus_chat.Accounts.Names.{here, creates, Reach-IsHeld}

abbrev services : Services
services = record { works = λ n. done; lower = λ s. s }

abbrev ann : User
ann = record {
  id = 2;
  email = "";
  name = "Ann";
  picture = "";
  auth_type = local;
  username = "ann";
  handle = "ann002";
  password_hash = "h";
  google_subject = "";
}

-- user 1 holds the name ann
abbrev held : Keys
held = record {
  claims = λ s k. elim s [ usernames ↦ if str_eq k "ann" then some 1 else none | _ ↦ none ];
  users = λ u. none;
  oauth = λ a e. none;
  names = λ n u. false;
  indexed_handles = λ n u. false;
  commands = 0;
}

Reach-IsHeld_example : IsHeld usernames "ann" 1 (create_user services ann held).1
Reach-IsHeld_example =
    Reach-IsHeld services usernames "ann" 1 held _ refl (creates ann refl here) refl
