-- ===== src/Backend/RelayProxy/Router.antt =====
-- internal/backend/proxy/relay/packet_router.go: what the router does with the events of the lobby and with
-- the packets of the relay server. An outcome `panic` is a write to a proxy that is not there.
use gladiator.Prelude.{
  ℕ, true, false, Option, none, some, List, [], ◌∷◌, ◌++◌, Text, text_Eq, codes, if◌then◌else◌, eqb,
  ◌==◌, ◌||◌,
}
use gladiator.Prelude.Maps.{Map, lookup, insert}
use gladiator.Packet.Encoder.{new_host_switch, host_migration}
use gladiator.Wire.{Player, parse_event_type, decode_typed}
use gladiator.Wire.Event.{join_room, leave_room, leave_lobby}
use gladiator.Wire.Event
use gladiator.Console.Relay.{RelayPacket}
use gladiator.Backend.HostManager.{
  HostManager, Started, refused, panics, running, assign_ip, stop_host, start_guest, start_host,
  set_host, remove_by_remote_id,
}
use gladiator.Backend.Session.{Outcome, done, error, panic, send_to_game}
use gladiator.Backend.RelayProxy.{Route, Bool, PacketRouter, World, routed}

-- The manager's `StartGuest` and `StartHost`, with the callbacks of a route.
abbrev pub guest_started : World → Text → Text → ℕ → ℕ → HostManager → Started
guest_started w peer ip tcp_port udp_port hm =
    start_guest w.net peer ip tcp_port udp_port (w.dial_tcp hm) (w.dial_udp hm) (w.now hm) hm

abbrev pub host_started : World → Text → Text → ℕ → ℕ → HostManager → Started
host_started w peer ip tcp_port udp_port hm =
    start_host w.net peer ip tcp_port udp_port (w.listen_tcp hm ip) (w.listen_udp hm ip) (w.now hm)
      hm

unfoldable pub handle_leave_room : World → Player → PacketRouter → PacketRouter × Outcome
unfolding remove_by_remote_id
handle_leave_room w player r =
    let peer_id = w.decimal player.user_id in
    if r.self_id == peer_id
    then (r, done)
    else (record r { manager = remove_by_remote_id peer_id r.manager }, done)

-- The first loop of `handleHostMigration`, over the peers with a host: the hosts are stopped and their
-- addresses kept. A peer that lost its host before its turn is not met.
unfoldable pub unbind : List Text → HostManager → Map Text Text → HostManager × Map Text Text
unfolding stop_host
unbind [] hm rebind_hosts = (hm, rebind_hosts)
unbind (peer_id ∷ peers) hm rebind_hosts = elim (lookup peer_id hm.peer_hosts) [
  | none ↦ unbind peers hm rebind_hosts
  | some host ↦
      let ip = (hm.heap host).ip in
      unbind peers (stop_host host ip hm) (insert peer_id ip rebind_hosts)
]

-- The second loop: a guest for each of them, up to the first that cannot be started.
unfoldable pub rebind : World → Text → Map Text Text → PacketRouter → PacketRouter × Outcome
unfolding start_guest
rebind w room_id [] r = (r, done)
rebind w room_id ((peer_id, ip) ∷ peers) r = elim (guest_started w peer_id ip 6114 6113 r.manager) [
  | refused ↦ (r, done)
  | panics ↦ (r, panic)
  | running hm host ↦
      rebind w room_id peers
        (routed (record { room_id = room_id; to_id = peer_id; tcp = true }) host hm r)
]

abbrev pub keys : {V : Type 0} → Map Text V → List Text
keys [] = []
keys ((k, v) ∷ m) = k ∷ keys m

abbrev pub localhost : List ℕ
localhost = 127 ∷ 0 ∷ 0 ∷ 1 ∷ []

-- The client itself becomes the host.
unfoldable pub become_host : World → PacketRouter → PacketRouter × Outcome
unfolding send_to_game new_host_switch unbind rebind
become_host w r =
    let (session, sent) =
      send_to_game w.services host_migration (new_host_switch false localhost) r.session in
    let told = record r { session = session } in
    elim sent [
      | done ↦
          let unbound = unbind (keys told.manager.peer_hosts) told.manager [] in
          rebind w told.room_id unbound.1 (record told { manager = unbound.0 })
      | error ↦ (told, done)
      | panic ↦ (told, panic)
    ]

-- Someone else became the host: the rest of `handleHostMigration`, three seconds later. The game is told
-- the address at which the new host listens.
unfoldable pub follow_host : World → Text → Text → PacketRouter → PacketRouter × Outcome
unfolding send_to_game new_host_switch stop_host start_host
follow_host w new_host_id room_id r = elim (lookup new_host_id r.manager.peer_ips) [
  | none ↦ (r, done)
  | some ip ↦ elim (lookup ip r.manager.hosts) [
    | none ↦ (r, done)
    | some host ↦
        let hm = stop_host host ip r.manager in
        elim (host_started w new_host_id ip 6114 6113 hm) [
          | refused ↦ (record r { manager = hm }, done)
          | panics ↦ (record r { manager = hm }, panic)
          | running hm' host' ↦
              let started =
                routed (record { room_id = room_id; to_id = new_host_id; tcp = true }) host' hm'
                  r in
              let (session, sent) =
                send_to_game w.services host_migration (new_host_switch true (w.ip_bytes ip))
                  started.session in
              (record started { session = session }, done)
        ]
  ]
]

abbrev pub with_host : Text → PacketRouter → PacketRouter
with_host new_host_id r = record r { current_host_id = new_host_id }

unfoldable pub handle_host_migration : World → Player → PacketRouter → PacketRouter × Outcome
unfolding become_host follow_host
handle_host_migration w player r =
    let new_host_id = w.decimal player.user_id in
    let named = with_host new_host_id r in
    if new_host_id == r.self_id
    then become_host w named
    else follow_host w new_host_id r.room_id named

-- `decodeAndHandle` with a handler for a player.
abbrev pub decode_and_handle :
    World
    → List ℕ
    → (Player → PacketRouter → PacketRouter × Outcome)
    → PacketRouter
    → PacketRouter × Outcome
decode_and_handle w payload handler r = elim (decode_typed w.codec.unmarshal_player payload) [
  | none ↦ (r, error)
  | some (t, player) ↦ handler player r
]

unfoldable pub handle : World → List ℕ → PacketRouter → PacketRouter × Outcome
unfolding parse_event_type decode_typed handle_leave_room handle_host_migration
handle w payload r =
    let event_type = parse_event_type payload in
    if eqb event_type join_room
    then decode_and_handle w payload (λ player r. (r, done)) r
    else if eqb event_type leave_room || eqb event_type leave_lobby
    then decode_and_handle w payload (handle_leave_room w) r
    else if eqb event_type Event.host_migration
    then decode_and_handle w payload (handle_host_migration w) r
    else (r, done)

-- A write to a proxy of the peer's host, whose failure is only logged.
abbrev pub deliver : Option ℕ → List ℕ → PacketRouter → PacketRouter × Outcome
deliver none payload r = (r, panic)
deliver (some proxy) payload r =
    (record r { delivered = r.delivered ++ ((proxy, payload) ∷ []) }, done)

unfoldable pub write_tcp : Text → RelayPacket → PacketRouter → PacketRouter × Outcome
write_tcp peer_id pkt r = elim (lookup peer_id r.manager.peer_hosts) [
  | none ↦ (r, done)
  | some host ↦ deliver (r.manager.heap host).proxy_tcp pkt.payload r
]

unfoldable pub write_udp : Text → RelayPacket → PacketRouter → PacketRouter × Outcome
write_udp peer_id pkt r = elim (lookup peer_id r.manager.peer_hosts) [
  | none ↦ (r, done)
  | some host ↦ deliver (r.manager.heap host).proxy_udp pkt.payload r
]

-- The three parts of `dynamicJoin`, each under the manager's lock, which is free between them. The first finds an
-- address; `none` is an error.
unfoldable pub join_assigned : World → Text → PacketRouter → Option (PacketRouter × Text)
unfolding assign_ip
join_assigned w peer_id r = elim (assign_ip w.net peer_id r.manager) [
  | none ↦ none
  | some (hm, ip) ↦ some (record r { manager = hm }, ip)
]

-- The second starts the host, with a TCP port if the client was seen to be the room's host; `none` is an error, or
-- a panic.
unfoldable pub join_started :
    World → Text → Text → Text → Bool → PacketRouter → Option (PacketRouter × ℕ) × Outcome
unfolding start_guest
join_started w room_id peer_id ip is_host r =
    elim (guest_started w peer_id ip (if is_host then 6114 else 0) 6113 r.manager) [
      | refused ↦ (none, done)
      | panics ↦ (none, panic)
      | running hm host ↦
          let route : Route = record { room_id = room_id; to_id = peer_id; tcp = is_host } in
          (some (routed route host hm r, host), done)
    ]

-- The third enters it again.
unfoldable pub join_set : Text → Text → ℕ → PacketRouter → PacketRouter
unfolding set_host
join_set ip peer_id host r = record r { manager = set_host ip peer_id host r.manager }

-- `dynamicJoin` when nothing comes between its parts.
unfoldable pub dynamic_join : World → Text → Text → PacketRouter → PacketRouter × Outcome
unfolding join_assigned join_started join_set
dynamic_join w room_id peer_id r = elim (join_assigned w peer_id r) [
  | none ↦ (r, done)
  | some (assigned, ip) ↦
      let (started, ended) =
        join_started w room_id peer_id ip (r.self_id == r.current_host_id) assigned in
      elim started [
        | none ↦ (assigned, ended)
        | some (begun, host) ↦ (join_set ip peer_id host begun, done)
      ]
]

unfoldable pub leave : Text → PacketRouter → PacketRouter
unfolding remove_by_remote_id
leave peer_id r = record r { manager = remove_by_remote_id peer_id r.manager }

-- One packet of `receiveLoop`. Packets of data and broadcasts are only logged.
unfoldable pub receive_packet : World → RelayPacket → PacketRouter → PacketRouter × Outcome
unfolding dynamic_join write_tcp write_udp leave
receive_packet w pkt r =
    if pkt.kind == codes "join"
    then dynamic_join w pkt.room_id pkt.from_id r
    else if pkt.kind == codes "tcp"
    then write_tcp pkt.from_id pkt r
    else if pkt.kind == codes "udp"
    then write_udp pkt.from_id pkt r
    else if pkt.kind == codes "leave"
    then (leave pkt.from_id r, done)
    else (r, done)

unfoldable pub receive_packets : World → List RelayPacket → PacketRouter → PacketRouter × Outcome
unfolding receive_packet
receive_packets w [] r = (r, done)
receive_packets w (pkt ∷ pkts) r =
    let (next, outcome) = receive_packet w pkt r in
    let rest = receive_packets w pkts next in
    elim outcome [ done ↦ rest | error ↦ rest | panic ↦ (next, panic) ]

-- What one read from the stream does.
unfoldable pub receive : World → List ℕ → PacketRouter → PacketRouter × Outcome
unfolding receive_packets
receive w data_ r = receive_packets w (w.packets data_) r
