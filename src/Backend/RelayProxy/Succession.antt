-- ===== src/Backend/RelayProxy/Succession.antt =====
-- `handleHostMigration` when the client itself becomes the host: the whole of it, and what a peer's leave
-- does afterwards.
use gladiator.Prelude.{◌≡◌, false, [], Text, text_Eq}
use gladiator.Prelude.Maps.{Map}
use gladiator.Packet.Encoder.{host_migration, new_host_switch}
use gladiator.Backend.HostManager.{HostManager}
use gladiator.Backend.Session.{Outcome, done, send_to_game}
use gladiator.Backend.RelayProxy.{PacketRouter, World}
use gladiator.Backend.RelayProxy.Router.{unbind, keys, localhost}
use gladiator.Backend.HostManager.Addresses.{IsAddressed}
use gladiator.Backend.RelayProxy.Migration.{Placed}

-- Whether the game was told.
abbrev pub told : World → PacketRouter → Outcome
told w r = (send_to_game w.services host_migration (new_host_switch false localhost) r.session).1

module _ (w : World) (r : PacketRouter) (v : IsAddressed r.manager) (at : Placed r.manager)
    (sent : told w r ≡ done) where
  abbrev all : HostManager × Map Text Text
  all = unbind (keys r.manager.peer_hosts) r.manager []

  abbrev unbound_router : PacketRouter
  unbound_router = record r {
    session =
        (send_to_game w.services host_migration (new_host_switch false localhost) r.session).0;
    manager = all.0;
  }
