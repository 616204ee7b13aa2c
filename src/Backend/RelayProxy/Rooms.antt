-- ===== src/Backend/RelayProxy/Rooms.antt =====
-- internal/backend/proxy/relay/relay.go: creating, hosting, choosing and joining a room. An answer is an
-- IPv4 address of four bytes.
use gladiator.Prelude.{
  ℕ, false, Option, none, some, List, [], ◌∷◌, ◌++◌, Text, text_Eq, codes, if◌then◌else◌, ◌==◌, not,
}
use gladiator.Prelude.Maps.{Map, lookup}
use gladiator.Backend.Proxy.{
  Answer, address, failed, panicked, RemotePlayer, GameData, find_host_user,
}
use gladiator.Backend.HostManager.{refused, panics, running, assign_ip, start_host, new_manager}
use gladiator.Backend.Session.{Session, Outcome, done, error, panic, send_set_room_ready}
use gladiator.Backend.RelayProxy.{
  PacketRouter, World, routed, reset, connect, keep_alive_host, send_packet, own_packet,
}
use gladiator.Backend.RelayProxy.Router.{host_started, localhost}

-- `NewRelay`; `ip_prefix` is the configured prefix as four bytes.
unfoldable pub new_router : World → Option (List ℕ) → Session → PacketRouter
unfolding new_manager
new_router w ip_prefix session = record {
  manager = new_manager (elim ip_prefix [ none ↦ 127 ∷ 0 ∷ 0 ∷ 0 ∷ [] | some p ↦ p ]);
  session = session;
  self_id = w.decimal session.user_id;
  room_id = [];
  current_host_id = [];
  relay_conn = none;
  stream = none;
  ping_ticker = none;
  routes = λ host. record { room_id = []; to_id = []; tcp = false };
  sent = [];
  delivered = [];
  closed = [];
  stopped_tickers = [];
}

unfoldable pub get_host_ip : List ℕ → List ℕ
get_host_ip ip = 127 ∷ 0 ∷ 0 ∷ 2 ∷ []

unfoldable pub create_room : World → Text → PacketRouter → PacketRouter × Answer
unfolding reset connect
create_room w game_id r = elim (reset r) [
  | none ↦ (r, panicked)
  | some r ↦
      let r = record r {
        self_id = w.decimal r.session.user_id;
        current_host_id = w.decimal r.session.user_id;
        room_id = game_id;
      } in
      let (r, connected) = connect w game_id r in
      (r, if connected then address localhost else failed)
]

-- The address of the game server, as `JoinHostPort` writes it.
abbrev pub game_server : Text → Text
game_server ip = ip ++ codes ":6114"

unfoldable pub host_room : World → Text → PacketRouter → PacketRouter × Outcome
unfolding keep_alive_host
host_room w game_id r =
    let (session, sent) = send_set_room_ready w.services w.codec w.decimal game_id r.session in
    let r = record r { session = session } in
    elim sent [
      | done ↦
          let r = keep_alive_host w r in
          (r, if w.probes r (game_server (codes "127.0.0.1")) then done else error)
      | error ↦ (r, error)
      | panic ↦ (r, panic)
    ]

-- The loop of `SelectGame`.
unfoldable pub assign_all : World → List RemotePlayer → PacketRouter → PacketRouter × Outcome
unfolding assign_ip
assign_all w [] r = (r, done)
assign_all w (player ∷ players) r =
    let peer_id = w.decimal player.user_id in
    let skipped = assign_all w players r in
    let assigned : PacketRouter × Outcome = elim (assign_ip w.net peer_id r.manager) [
      | none ↦ (r, error)
      | some (hm, ip) ↦ assign_all w players (record r { manager = hm })
    ] in
    if peer_id == r.self_id then skipped else assigned

unfoldable pub select_game : World → GameData → PacketRouter → PacketRouter × Outcome
unfolding reset find_host_user assign_all
select_game w d r = elim (reset r) [
  | none ↦ (r, panic)
  | some r ↦
      let r = record r { self_id = w.decimal r.session.user_id; room_id = d.game.game_id } in
      elim (find_host_user d) [
        | none ↦ (r, error)
        | some host ↦ assign_all w d.players (record r { current_host_id = w.decimal host.user_id })
      ]
]

unfoldable pub get_player_addr : World → ℕ → PacketRouter → Answer
get_player_addr w user_id r =
    let peer_id = w.decimal user_id in
    if peer_id == r.self_id then address localhost else elim (lookup peer_id r.manager.peer_ips) [
      | none ↦ failed
      | some ip ↦ if w.net.parses ip then address (w.ip_bytes ip) else failed
    ]

-- The loop of `Join`. Only the room's host has a TCP port, and a probe.
unfoldable pub start_all :
    World → Text → Text → Map Text Text → PacketRouter → PacketRouter × Answer
unfolding start_host
start_all w room_id host_id [] r = (r, address localhost)
start_all w room_id host_id ((peer_id, ip) ∷ peers) r =
    let is_host = peer_id == host_id in
    elim (host_started w peer_id ip (if is_host then 6114 else 0) 6113 r.manager) [
      | refused ↦ (r, failed)
      | panics ↦ (r, panicked)
      | running hm host ↦
          let started =
            routed (record { room_id = room_id; to_id = peer_id; tcp = is_host }) host hm r in
          let rest = start_all w room_id host_id peers started in
          if is_host
          then (if w.probes started (game_server ip) then rest else (started, failed))
          else rest
    ]

unfoldable pub join : World → Text → ℕ → PacketRouter → PacketRouter × Answer
unfolding connect send_packet start_all
join w game_id host_user_id r =
    let (r, connected) = connect w game_id r in
    if not connected
    then (r, failed)
    else elim (send_packet w (own_packet (codes "broadcast") game_id (codes "Hello everyone!")) r) [
      | none ↦ (r, failed)
      | some r ↦ start_all w game_id (w.decimal host_user_id) r.manager.peer_ips r
    ]

-- `Close`
unfoldable pub close : PacketRouter → PacketRouter × Outcome
unfolding reset
close r = elim (reset r) [ none ↦ (r, panic) | some r ↦ (r, done) ]
