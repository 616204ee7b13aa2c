-- ===== src/Backend/RelayProxy/Handled.antt =====
-- The router's operations, whole.
use gladiator.Prelude.{
  IfSome, Bool, subst, ◌<◌, ℕ, ◌≡◌, refl, inl, inr, Option, none, some, List, [], ◌∷◌, Text,
  text_Eq, arith, if◌then◌else◌, ◌==◌, Bool-cases, eqb, ◌||◌, not, if_rule, option_rule, codes,
}
use gladiator.Prelude.Maps.{Map, lookup}
use gladiator.Wire.{Player, parse_event_type, decode_typed}
use gladiator.Wire.Event.{join_room, leave_room, leave_lobby}
use gladiator.Wire.Event
use gladiator.Console.Relay.{RelayPacket}
use gladiator.Backend.HostManager.{assign_ip}
use gladiator.Backend.HostManager.Starting.{started_rule}
use gladiator.Backend.Session.{Outcome, done, outcome_rule, send_set_room_ready}
use gladiator.Backend.Proxy.{Answer, GameData, RemotePlayer, find_host_user}
use gladiator.Backend.RelayProxy.{
  PacketRouter, World, Route, routed, send_packet, own_packet, connect, keep_alive_host, stop,
  reset, on_udp_message, on_tcp_message, relayed,
}
use gladiator.Backend.RelayProxy.Router.{
  handle_leave_room, handle_host_migration, handle, decode_and_handle, write_tcp, write_udp,
  join_assigned, join_started, join_set, dynamic_join, leave, receive_packet, guest_started,
  host_started, with_host, deliver,
}
use gladiator.Backend.RelayProxy.Rooms.{
  create_room, host_room, assign_all, select_game, start_all, join, game_server,
}
use gladiator.Backend.RelayProxy.Routes.{
  set_host-IsRouted, assign_ip-IsRouted, stop_host-IsRouted, remove_by_remote_id-IsRouted,
}
use gladiator.Backend.RelayProxy.Kept.{
  Routed, RoutedBehind, sent, reset-Routed, connect-Routed, guest-Routed, host-Routed,
  become_host-Routed, follow_host-Routed, tcp_port,
}

-- What the second part of a join leaves: the host that it started, whose route leads to the peer.
abbrev pub Begun : Text → PacketRouter × ℕ → Type 0
Begun peer (r, host) = Routed r × (host < r.manager.next) × ((r.routes host).to_id ≡ peer)

module _ (w : World) where
  handle_host_migration-Routed :
      (player : Player) (r : PacketRouter) → Routed r → Routed (handle_host_migration w player r).0
  unfolding handle_host_migration
  handle_host_migration-Routed player r v =
      let p = w.decimal player.user_id in
      if_rule (λ (x : PacketRouter × Outcome). Routed x.0) (p == r.self_id)
        (become_host-Routed w (with_host p r) v)
        (follow_host-Routed w p r.room_id (with_host p r) v)

  handle_leave_room-Routed :
      (player : Player) (r : PacketRouter) → Routed r → Routed (handle_leave_room w player r).0
  unfolding handle_leave_room
  handle_leave_room-Routed player r v =
      let p = w.decimal player.user_id in
      if_rule (λ (x : PacketRouter × Outcome). Routed x.0) (r.self_id == p) v
        (remove_by_remote_id-IsRouted p r.manager r.routes v)

  decode_and_handle-Routed :
      (payload : List ℕ) (handler : Player → PacketRouter → PacketRouter × Outcome)
      (r : PacketRouter)
      → ((player : Player) → Routed (handler player r).0)
      → Routed r
      → Routed (decode_and_handle w payload handler r).0
  decode_and_handle-Routed payload handler r h v =
      option_rule (λ (x : PacketRouter × Outcome). Routed x.0)
        (decode_typed w.codec.unmarshal_player payload) v (λ x e. h x.1)

  pub handle-Routed :
      (payload : List ℕ) (r : PacketRouter) → Routed r → Routed (handle w payload r).0
  unfolding handle
  handle-Routed payload r v =
      let P = λ (x : PacketRouter × Outcome). Routed x.0 in
      let t = parse_event_type payload in
      if_rule P (eqb t join_room)
        (decode_and_handle-Routed payload (λ player r. (r, done)) r (λ player. v) v)
        (if_rule P (eqb t leave_room || eqb t leave_lobby)
          (decode_and_handle-Routed payload (handle_leave_room w) r
            (λ player. handle_leave_room-Routed player r v) v)
          (if_rule P (eqb t Event.host_migration)
            (decode_and_handle-Routed payload (handle_host_migration w) r
              (λ player. handle_host_migration-Routed player r v) v)
            v))

  -- The parts of a join, whatever the router is when they run.
  pub join_assigned-Routed :
      (peer : Text) (r : PacketRouter)
      → Routed r
      → IfSome (λ (x : PacketRouter × Text). Routed x.0) (join_assigned w peer r)
  unfolding join_assigned
  join_assigned-Routed peer r v =
      option_rule (IfSome (λ (x : PacketRouter × Text). Routed x.0))
        (assign_ip w.net peer r.manager) tt
        (λ x e. assign_ip-IsRouted w.net peer r.manager r.routes v x e)

  pub join_started-Routed :
      (room_id peer ip : Text) (is_host : Bool) (r : PacketRouter)
      → Routed r
      → IfSome (Begun peer) (join_started w room_id peer ip is_host r).0
  unfolding join_started
  join_started-Routed room_id peer ip is_host r v =
      started_rule (λ (x : Option (PacketRouter × ℕ) × Outcome). IfSome (Begun peer) x.0)
        (guest_started w peer ip (if is_host then 6114 else 0) 6113 r.manager) tt tt
        (λ hm host g.
          let (started, has, same, _) =
            guest-Routed w peer ip (if is_host then 6114 else 0)
              (record { room_id = room_id; to_id = peer; tcp = is_host }) r.manager r refl
              (tcp_port w is_host) v hm host g in
          (started, started.older peer host has, started.leads peer host has))

  pub join_set-Routed :
      (ip peer : Text) (host : ℕ) (r : PacketRouter)
      → host < r.manager.next
      → (r.routes host).to_id ≡ peer
      → Routed r
      → Routed (join_set ip peer host r)
  unfolding join_set
  join_set-Routed ip peer host r lt to v = set_host-IsRouted ip peer host r.manager r.routes lt to v

  dynamic_join-Routed :
      (room_id peer : Text) (r : PacketRouter) → Routed r → Routed (dynamic_join w room_id peer r).0
  unfolding dynamic_join
  dynamic_join-Routed room_id peer r v = option_rule RoutedBehind (join_assigned w peer r) v (λ x e.
      let given =
        subst (IfSome (λ (y : PacketRouter × Text). Routed y.0)) e
          (join_assigned-Routed peer r v) in
      let is_host = r.self_id == r.current_host_id in
      option_rule RoutedBehind (join_started w room_id peer x.1 is_host x.0).0 given (λ y g.
        let (begun, lt, to) =
          subst (IfSome (Begun peer)) g (join_started-Routed room_id peer x.1 is_host x.0 given) in
        join_set-Routed x.1 peer y.1 y.0 lt to begun))

  deliver-Routed :
      (proxy : Option ℕ) (payload : List ℕ) (r : PacketRouter)
      → Routed r
      → Routed (deliver proxy payload r).0
  deliver-Routed none payload r v = v
  deliver-Routed (some proxy) payload r v = v

  pub receive_packet-Routed :
      (pkt : RelayPacket) (r : PacketRouter) → Routed r → Routed (receive_packet w pkt r).0
  unfolding receive_packet write_tcp write_udp leave
  receive_packet-Routed pkt r v =
      let P = λ (x : PacketRouter × Outcome). Routed x.0 in
      if_rule P (pkt.kind == codes "join") (dynamic_join-Routed pkt.room_id pkt.from_id r v) (
        if_rule P (pkt.kind == codes "tcp")
          (option_rule P (lookup pkt.from_id r.manager.peer_hosts) v
            (λ host e. deliver-Routed (r.manager.heap host).proxy_tcp pkt.payload r v))
          (if_rule P (pkt.kind == codes "udp")
            (option_rule P (lookup pkt.from_id r.manager.peer_hosts) v
              (λ host e. deliver-Routed (r.manager.heap host).proxy_udp pkt.payload r v))
            (if_rule P (pkt.kind == codes "leave")
              (remove_by_remote_id-IsRouted pkt.from_id r.manager r.routes v) v)))

  pub on_udp_message-Routed :
      (host : ℕ) (p : List ℕ) (r r' : PacketRouter)
      → on_udp_message w host p r ≡ some r'
      → Routed r
      → Routed r'
  unfolding on_udp_message
  on_udp_message-Routed host p r r' e v = sent w (relayed (codes "udp") (r.routes host) p) r v r' e

  pub on_tcp_message-Routed :
      (host : ℕ) (p : List ℕ) (r r' : PacketRouter)
      → on_tcp_message w host p r ≡ some r'
      → Routed r
      → Routed r'
  unfolding on_tcp_message
  on_tcp_message-Routed host p r r' e v = elim (Bool-cases (r.routes host).tcp) [
    | inl t ↦ sent w (relayed (codes "tcp") (r.routes host) p) r v r' (ground (arith, t, e))
    | inr f ↦ absurd (ground (arith, f, e))
  ]

  pub stop-Routed : (host : ℕ) (ip : Text) (r : PacketRouter) → Routed r → Routed (stop host ip r)
  unfolding stop
  stop-Routed host ip r v = stop_host-IsRouted host ip r.manager r.routes v

  pub create_room-Routed :
      (game_id : Text) (r : PacketRouter) → Routed r → Routed (create_room w game_id r).0
  unfolding create_room
  create_room-Routed game_id r v =
      option_rule (λ (x : PacketRouter × Answer). Routed x.0) (reset r) v
        (λ r' e. connect-Routed w game_id _ (reset-Routed w r r' v e))

  pub host_room-Routed :
      (game_id : Text) (r : PacketRouter) → Routed r → Routed (host_room w game_id r).0
  unfolding host_room keep_alive_host
  host_room-Routed game_id r v =
      outcome_rule (λ (x : PacketRouter × Outcome). Routed x.0)
        (send_set_room_ready w.services w.codec w.decimal game_id r.session).1 v v v

  assign_all-Routed :
      (players : List RemotePlayer) (r : PacketRouter)
      → Routed r
      → Routed (assign_all w players r).0
  unfolding assign_all
  assign_all-Routed [] r v = v
  assign_all-Routed (player ∷ players) r v =
      let p = w.decimal player.user_id in
      let P = λ (x : PacketRouter × Outcome). Routed x.0 in
      if_rule P (p == r.self_id) (assign_all-Routed players r v) (
        option_rule P (assign_ip w.net p r.manager) v (λ x e.
          assign_all-Routed players (record r { manager = x.0 })
            (assign_ip-IsRouted w.net p r.manager r.routes v x e)))

  pub select_game-Routed :
      (d : GameData) (r : PacketRouter) → Routed r → Routed (select_game w d r).0
  unfolding select_game
  select_game-Routed d r v =
      let K = λ (x : PacketRouter × Outcome). Routed x.0 in
      option_rule K (reset r) v (λ r' e.
        let fresh = reset-Routed w r r' v e in
        option_rule K (find_host_user d) fresh (λ host f. assign_all-Routed d.players _ fresh))

  start_all-Routed :
      (room_id host_id : Text) (peers : Map Text Text) (r : PacketRouter)
      → Routed r
      → Routed (start_all w room_id host_id peers r).0
  unfolding start_all
  start_all-Routed room_id host_id [] r v = v
  start_all-Routed room_id host_id ((p, ip) ∷ peers) r v =
      let P = λ (x : PacketRouter × Answer). Routed x.0 in
      let is_host = p == host_id in
      started_rule P (host_started w p ip (if is_host then 6114 else 0) 6113 r.manager) v v
        (λ hm host e.
          let route : Route = record { room_id = room_id; to_id = p; tcp = is_host } in
          let here =
            host-Routed w p ip (if is_host then 6114 else 0) route r.manager r refl
              (tcp_port w is_host) v hm host e in
          let rest = start_all-Routed room_id host_id peers (routed route host hm r) here in
          if_rule P is_host
            (if_rule P (w.probes (routed route host hm r) (game_server ip)) rest here) rest)

  pub join-Routed :
      (game_id : Text) (host_user_id : ℕ) (r : PacketRouter)
      → Routed r
      → Routed (join w game_id host_user_id r).0
  unfolding join
  join-Routed game_id host_user_id r v =
      let P = λ (x : PacketRouter × Answer). Routed x.0 in
      let joined = connect-Routed w game_id r v in
      let pkt : RelayPacket = own_packet (codes "broadcast") game_id (codes "Hello everyone!") in
      if_rule P (not (connect w game_id r).1) joined (
        option_rule P (send_packet w pkt (connect w game_id r).0) joined (λ greeted e.
          start_all-Routed game_id (w.decimal host_user_id) greeted.manager.peer_ips greeted
            (sent w pkt (connect w game_id r).0 joined greeted e)))
