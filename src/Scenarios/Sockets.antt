-- ===== src/Scenarios/Sockets.antt =====
-- One user who connects twice to a channel.
use nexus_chat.Base.{◌≡◌, refl, ℕ, true, false, none, some, ◌⊎◌}
use nexus_chat.Effects.{ok}
use nexus_chat.Cassandra.{done, failed}
use nexus_chat.Storage.{set_pair}
use nexus_chat.Chat.Sockets.{
  Sockets, initialize_chat_session, acquire_session, announce, or_release, set_online,
  register_session,
}
use nexus_chat.Chat.Sockets.Presence.{start, connects, Reach-online}
use nexus_chat.Chat.Sockets.Races.{overlapping, overlapping-offline}

abbrev quiet : Sockets
quiet = record { counts = λ c u. 0; online = λ c u. false; registered = λ c u. none; calls = 0 }

abbrev first_in : Sockets
first_in = (initialize_chat_session (λ n. done) "s" 1 7 quiet).1

Reach-online_example :
    (first_in.counts 1 7 ≡ 1)
    × ((◌≡◌ {A = ℕ} 1 0) ⊎ ((first_in.online 1 7 ≡ true) × (first_in.registered 1 7 ≡ some "s")))
unfolding initialize_chat_session acquire_session announce or_release set_online register_session
    set_pair
Reach-online_example = Reach-online (λ n. done) "s" 1 7 (connects 1 7 start)

overlapping-offline_example :
    ((initialize_chat_session (λ n. failed) "s" 1 7 (acquire_session 1 7 quiet).1).0 ≡ ok tt)
    × (((overlapping (λ n. failed) "s" 1 7 quiet).counts 1 7 ≡ 1)
        × ((overlapping (λ n. failed) "s" 1 7 quiet).online 1 7 ≡ false))
overlapping-offline_example = overlapping-offline (λ n. failed) "s" 1 7 quiet refl refl refl
