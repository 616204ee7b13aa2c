-- ===== src/Backend/RelayProxy/Steps.antt =====
-- Whatever happens to the router, in any order: the lobby's events, the relay's packets, the game's own
-- traffic, its requests, the probes and the clock.
use gladiator.Prelude.{sym, ◌<◌, IfSome, subst, ℕ, ◌≡◌, some, Option, List, Text}
use gladiator.Prelude.{if◌then◌else◌, refl}
use gladiator.Backend.HostManager.{stop_all, running}
use gladiator.Console.Relay.{RelayPacket}
use gladiator.Backend.Session.{Session}
use gladiator.Backend.Proxy.{GameData}
use gladiator.Backend.RelayProxy.{
  Route, true, routed, HostManager, Bool, PacketRouter, World, ping, stop, on_udp_message,
  on_tcp_message,
}
use gladiator.Backend.RelayProxy.Router.{
  host_started, guest_started, join_set, join_started, leave, join_assigned, handle, follow_host,
  receive_packet, with_host,
}
use gladiator.Backend.RelayProxy.Rooms.{
  new_router, create_room, host_room, select_game, join, close,
}
use gladiator.Backend.RelayProxy.Routes.{
  remove_by_remote_id-IsRouted, stop_all-IsRouted, IsRouted, new_manager-IsRouted,
}
use gladiator.Backend.RelayProxy.Kept.{
  tcp_port, host-Routed, nonzero, guest-Routed, Routed, close-Routed, ping-Routed,
  follow_host-Routed,
}
use gladiator.Backend.RelayProxy.Handled.{
  join_set-Routed, join_started-Routed, Begun, join_assigned-Routed, handle-Routed,
  receive_packet-Routed, on_udp_message-Routed, on_tcp_message-Routed, stop-Routed,
  create_room-Routed, host_room-Routed, select_game-Routed, join-Routed,
}

-- One step. Between the parts of an operation that hold no lock anything may happen: `is_told` and `follows` are the
-- two halves of a migration to another host; `assigns`, `starts_join` and `sets` are the three parts of a join, where
-- `sets` is for a host that was started with a route to the peer; and with `starts_guest`, `starts_host`, `stops`,
-- `stops_all` and `removes` these are all that the longer operations do to the manager. `elsewhere` is all that
-- changes neither the manager nor the routes.
pub data Step (w : World) : PacketRouter → PacketRouter → Type 0 where
  handles : (r : PacketRouter) (payload : List ℕ) → Step w r (handle w payload r).0
  is_told : (r : PacketRouter) (host_id : Text) → Step w r (with_host host_id r)
  follows :
      (r : PacketRouter) (host_id room_id : Text) → Step w r (follow_host w host_id room_id r).0
  receives : (r : PacketRouter) (pkt : RelayPacket) → Step w r (receive_packet w pkt r).0
  assigns :
      (r : PacketRouter) (peer : Text) (x : PacketRouter × Text)
      → join_assigned w peer r ≡ some x
      → Step w r x.0
  starts_join :
      (r : PacketRouter) (room_id peer ip : Text) (is_host : Bool) (x : PacketRouter × ℕ)
      → (join_started w room_id peer ip is_host r).0 ≡ some x
      → Step w r x.0
  sets :
      (r : PacketRouter) (ip peer : Text) (host : ℕ)
      → host < r.manager.next
      → (r.routes host).to_id ≡ peer
      → Step w r (join_set ip peer host r)
  starts_guest :
      (r : PacketRouter) (room_id peer ip : Text) {hm : HostManager} {host : ℕ}
      → guest_started w peer ip 6114 6113 r.manager ≡ running hm host
      → Step w r (routed (record { room_id = room_id; to_id = peer; tcp = true }) host hm r)
  starts_host :
      (r : PacketRouter) (room_id peer ip : Text) (is_host : Bool) {hm : HostManager} {host : ℕ}
      → host_started w peer ip (if is_host then 6114 else 0) 6113 r.manager ≡ running hm host
      → Step w r (routed (record { room_id = room_id; to_id = peer; tcp = is_host }) host hm r)
  stops_all : (r : PacketRouter) → Step w r (record r { manager = stop_all r.manager })
  removes : (r : PacketRouter) (peer : Text) → Step w r (leave peer r)
  elsewhere : (r r' : PacketRouter) → r'.manager ≡ r.manager → r'.routes ≡ r.routes → Step w r r'
  sends_udp :
      (r r' : PacketRouter) (host : ℕ) (p : List ℕ)
      → on_udp_message w host p r ≡ some r'
      → Step w r r'
  sends_tcp :
      (r r' : PacketRouter) (host : ℕ) (p : List ℕ)
      → on_tcp_message w host p r ≡ some r'
      → Step w r r'
  creates_room : (r : PacketRouter) (game_id : Text) → Step w r (create_room w game_id r).0
  hosts_room : (r : PacketRouter) (game_id : Text) → Step w r (host_room w game_id r).0
  selects_game : (r : PacketRouter) (d : GameData) → Step w r (select_game w d r).0
  joins :
      (r : PacketRouter) (game_id : Text) (host_user_id : ℕ)
      → Step w r (join w game_id host_user_id r).0
  pings : (r : PacketRouter) → Step w r (ping w r).0
  stops : (r : PacketRouter) (host : ℕ) (ip : Text) → Step w r (stop host ip r)
  closes : (r : PacketRouter) → Step w r (close r).0

pub data Reach (w : World) (start : PacketRouter) : PacketRouter → Type 0 where
  here : Reach w start start
  next_step : {t u : PacketRouter} → Reach w start t → Step w t u → Reach w start u

module _ (w : World) where
  Step-Routed : {r r' : PacketRouter} → Step w r r' → Routed r → Routed r'
  unfolding leave
  Step-Routed (handles r payload) v = handle-Routed w payload r v
  Step-Routed (is_told r host_id) v = v
  Step-Routed (follows r host_id room_id) v = follow_host-Routed w host_id room_id r v
  Step-Routed (receives r pkt) v = receive_packet-Routed w pkt r v
  Step-Routed (assigns r peer x e) v =
      subst (IfSome (λ (y : PacketRouter × Text). Routed y.0)) e (join_assigned-Routed w peer r v)
  Step-Routed (starts_join r room_id peer ip is_host x e) v =
      (subst (IfSome (Begun peer)) e (join_started-Routed w room_id peer ip is_host r v)).0
  Step-Routed (sets r ip peer host lt to) v = join_set-Routed w ip peer host r lt to v
  Step-Routed (starts_guest r room_id peer ip e) v =
      (guest-Routed w peer ip 6114 _ r.manager r refl (λ t. nonzero w) v _ _ e).0
  Step-Routed (starts_host r room_id peer ip is_host e) v =
      host-Routed w peer ip (if is_host then 6114 else 0) _ r.manager r refl (tcp_port w is_host) v
        _ _ e
  Step-Routed (stops_all r) v = stop_all-IsRouted r.manager r.routes v
  Step-Routed (removes r peer) v = remove_by_remote_id-IsRouted peer r.manager r.routes v
  Step-Routed (elsewhere r r' m t) v =
      subst (λ (f : ℕ → Route). IsRouted r'.manager f) (sym t)
        (subst (λ (hm : HostManager). IsRouted hm r.routes) (sym m) v)
  Step-Routed (sends_udp r r' host p e) v = on_udp_message-Routed w host p r r' e v
  Step-Routed (sends_tcp r r' host p e) v = on_tcp_message-Routed w host p r r' e v
  Step-Routed (creates_room r game_id) v = create_room-Routed w game_id r v
  Step-Routed (hosts_room r game_id) v = host_room-Routed w game_id r v
  Step-Routed (selects_game r d) v = select_game-Routed w d r v
  Step-Routed (joins r game_id host_user_id) v = join-Routed w game_id host_user_id r v
  Step-Routed (pings r) v = ping-Routed w r v
  Step-Routed (stops r host ip) v = stop-Routed w host ip r v
  Step-Routed (closes r) v = close-Routed w r v

-- From a new router on, whatever happens in whatever order, where the operations may run whole or interleave between
-- their parts, the three parts of a join included: what the game sends to a peer's fake host goes to that peer; and
-- every fake host that was started takes datagrams, and a stream if its route has one.
pub Reach-IsRouted :
    (w : World) (ip_prefix : Option (List ℕ)) (session : Session) {r : PacketRouter}
    → Reach w (new_router w ip_prefix session) r
    → IsRouted r.manager r.routes
unfolding new_router
Reach-IsRouted w ip_prefix session here = new_manager-IsRouted _ _
Reach-IsRouted w ip_prefix session (next_step reach step) =
    Step-Routed w step (Reach-IsRouted w ip_prefix session reach)
