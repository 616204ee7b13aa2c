-- ===== src/Backend/RelayProxy/Client.antt =====
-- `Relay` of internal/backend/proxy/relay/relay.go as a proxy, which shares its session with the handlers; and what it
-- does to that session.
use gladiator.Prelude.{
  ◌++◌, ℕ, ◌≡◌, refl, ap, subst, ◌∙◌, not, Bool, Option, some, List, [], ◌∷◌, Text, text_Eq, codes,
  ◌==◌, if◌then◌else◌, IfSome, if_rule, option_rule,
}
use gladiator.Prelude.Maps.{Map}
use gladiator.Backend.Session.{
  Session, Outcome, send_event, outcome_rule, send_set_room_ready, send_event_to,
}
use gladiator.Backend.Proxy.{ProxyClient, Answer, GameData, RemotePlayer, find_host_user}
use gladiator.Backend.HostManager.{assign_ip}
use gladiator.Backend.HostManager.Starting.{started_rule}
use gladiator.Backend.Dispatcher.Guarded.{Extends, append_nil, call-Extends}
use gladiator.Backend.Dispatcher.Rooms.{Obeys}
use gladiator.Console.Relay.{RelayPacket}
use gladiator.Backend.RelayProxy.{
  PacketRouter, World, Route, routed, connect, send_packet, own_packet, reset, keep_alive_host,
}
use gladiator.Backend.RelayProxy.Router.{handle, host_started}
use gladiator.Backend.RelayProxy.Rooms.{
  get_host_ip, create_room, host_room, select_game, assign_all, get_player_addr, start_all, join,
  close, game_server,
}

-- The router with the session as it is now, and both behind an operation.
abbrev pub shared : Session × PacketRouter → PacketRouter
shared (s, r) = record r { session = s }

abbrev pub answered : {A : Type 0} → PacketRouter × A → (Session × PacketRouter) × A
answered (r, a) = ((r.session, r), a)

abbrev pub relay_client : World → ProxyClient PacketRouter
relay_client w = record {
  get_host_ip = λ ip r. some (get_host_ip []);
  create_room = λ game_id x. answered (create_room w game_id (shared x));
  host_room = λ game_id x. answered (host_room w game_id (shared x));
  select_game = λ d x. answered (select_game w d (shared x));
  get_player_addr = λ params x. get_player_addr w params.user_id (shared x);
  join = λ params x. answered (join w params.game_id params.host_user_id (shared x));
  connect_to_player = λ params x. get_player_addr w params.user_id (shared x);
  close = λ x. answered (close (shared x));
  handle = λ payload x. answered (handle w payload (shared x));
}

abbrev Same : {A : Type 0} → Session → PacketRouter × A → Type 0
Same s x = x.0.session ≡ s

Same-Extends : (s t : Session) → t ≡ s → Extends s t
Same-Extends s t e = (
  ap (λ (x : Session). x.user_id) e,
  ap (λ (x : Session). x.ws_conn) e,
  [],
  ap (λ (x : Session). x.calls) e ∙ append_nil s.calls,
)

reset_if-session :
    (r : PacketRouter) → IfSome (λ (x : PacketRouter). x.session ≡ r.session) (reset r)
unfolding reset
reset_if-session r =
    let K : Option PacketRouter → Type 0 = IfSome (λ (x : PacketRouter). x.session ≡ r.session) in
    option_rule K r.relay_conn refl (λ conn e. option_rule K r.stream tt (λ stream f. refl))

module _ (w : World) where
  send_packet-session :
      (pkt : RelayPacket) (r : PacketRouter)
      → IfSome (λ (r' : PacketRouter). r'.session ≡ r.session) (send_packet w pkt r)
  unfolding send_packet
  send_packet-session pkt r =
      let K : Option PacketRouter → Type 0 =
        IfSome (λ (r' : PacketRouter). r'.session ≡ r.session) in
      option_rule K r.stream tt (λ stream e.
        option_rule K (w.marshal (record pkt { from_id = r.self_id })) tt
          (λ data_ f. if_rule K (w.write_stream r stream (data_ ++ (10 ∷ []))) refl tt))

  was_sent :
      (pkt : RelayPacket) (r r' : PacketRouter)
      → send_packet w pkt r ≡ some r'
      → r'.session ≡ r.session
  was_sent pkt r r' e =
      subst (IfSome (λ (x : PacketRouter). x.session ≡ r.session)) e (send_packet-session pkt r)

  connect-session : (room_id : Text) (r : PacketRouter) → Same r.session (connect w room_id r)
  unfolding connect
  connect-session room_id r =
      let K : PacketRouter × Bool → Type 0 = Same r.session in
      option_rule K (w.dial_relay r) refl (λ conn e.
        let dialled = record r { relay_conn = some conn } in
        option_rule K (w.open_stream dialled) refl (λ stream f.
          let opened = record dialled { stream = some stream } in
          let pkt : RelayPacket = own_packet (codes "join") room_id [] in
          option_rule K (send_packet w pkt opened) refl (λ joined g. was_sent pkt opened joined g)))

  assign_all-session :
      (players : List RemotePlayer) (r : PacketRouter) → Same r.session (assign_all w players r)
  unfolding assign_all
  assign_all-session [] r = refl
  assign_all-session (player ∷ players) r =
      let K : PacketRouter × Outcome → Type 0 = Same r.session in
      let peer_id = w.decimal player.user_id in
      if_rule K (peer_id == r.self_id) (assign_all-session players r) (
        option_rule K (assign_ip w.net peer_id r.manager) refl
          (λ x e. assign_all-session players (record r { manager = x.0 })))

  start_all-session :
      (room_id host_id : Text) (peers : Map Text Text) (r : PacketRouter)
      → Same r.session (start_all w room_id host_id peers r)
  unfolding start_all
  start_all-session room_id host_id [] r = refl
  start_all-session room_id host_id ((p, ip) ∷ peers) r =
      let K : PacketRouter × Answer → Type 0 = Same r.session in
      let is_host = p == host_id in
      started_rule K (host_started w p ip (if is_host then 6114 else 0) 6113 r.manager) refl refl
        (λ hm host e.
          let route : Route = record { room_id = room_id; to_id = p; tcp = is_host } in
          let rest = start_all-session room_id host_id peers (routed route host hm r) in
          if_rule K is_host
            (if_rule K (w.probes (routed route host hm r) (game_server ip)) rest refl) rest)

  reset-session : (r r' : PacketRouter) → reset r ≡ some r' → r'.session ≡ r.session
  reset-session r r' e =
      subst (IfSome (λ (x : PacketRouter). x.session ≡ r.session)) e (reset_if-session r)

  create_room-session :
      (game_id : Text) (r : PacketRouter) → Same r.session (create_room w game_id r)
  unfolding create_room
  create_room-session game_id r = option_rule (Same {A = Answer} r.session) (reset r) refl (λ r' e.
      connect-session game_id (record r' {
        self_id = w.decimal r'.session.user_id;
        current_host_id = w.decimal r'.session.user_id;
        room_id = game_id;
      })
      ∙ reset-session r r' e)

  select_game-session : (d : GameData) (r : PacketRouter) → Same r.session (select_game w d r)
  unfolding select_game
  select_game-session d r =
      let K : PacketRouter × Outcome → Type 0 = Same r.session in
      option_rule K (reset r) refl (λ r' e.
        let same = reset-session r r' e in
        option_rule K (find_host_user d) same (λ host f.
          assign_all-session d.players (record r' {
            self_id = w.decimal r'.session.user_id;
            room_id = d.game.game_id;
            current_host_id = w.decimal host.user_id;
          })
          ∙ same))

  close-session : (r : PacketRouter) → Same r.session (close r)
  unfolding close
  close-session r =
      option_rule (Same {A = Outcome} r.session) (reset r) refl (λ r' e. reset-session r r' e)

  join-session :
      (game_id : Text) (host_user_id : ℕ) (r : PacketRouter)
      → Same r.session (join w game_id host_user_id r)
  unfolding join
  join-session game_id host_user_id r =
      let K : PacketRouter × Answer → Type 0 = Same r.session in
      let x = connect w game_id r in
      let joined = connect-session game_id r in
      let pkt : RelayPacket = own_packet (codes "broadcast") game_id (codes "Hello everyone!") in
      if_rule K (not x.1) joined (
        option_rule K (send_packet w pkt x.0) joined (λ greeted e.
          start_all-session game_id (w.decimal host_user_id) greeted.manager.peer_ips greeted
          ∙ was_sent pkt x.0 greeted e
          ∙ joined))

  host_room-Extends :
      (game_id : Text) (r : PacketRouter) → Extends r.session (host_room w game_id r).0.session
  unfolding host_room send_set_room_ready send_event_to keep_alive_host
  host_room-Extends game_id r =
      let s = r.session in
      let sent = send_set_room_ready w.services w.codec w.decimal game_id s in
      let told : Extends s sent.0 =
        if_rule (λ (x : Session × Outcome). Extends s x.0) s.ws_conn (call-Extends (send_event _) s)
          (refl, refl, [], append_nil s.calls) in
      outcome_rule (λ (x : PacketRouter × Outcome). Extends s x.0.session) sent.1 told told told

  pub relay_client-Obeys : Obeys (relay_client w)
  relay_client-Obeys = record {
    create_room-Extends = λ game_id s r.
        Same-Extends s (create_room w game_id (shared (s, r))).0.session
          (create_room-session game_id (shared (s, r)));
    host_room-Extends = λ game_id s r. host_room-Extends game_id (shared (s, r));
    select_game-Extends = λ d s r.
        Same-Extends s (select_game w d (shared (s, r))).0.session
          (select_game-session d (shared (s, r)));
    join-Extends = λ params s r.
        Same-Extends s (join w params.game_id params.host_user_id (shared (s, r))).0.session
          (join-session params.game_id params.host_user_id (shared (s, r)));
    close-Quiet = λ s r.
        let e = close-session (shared (s, r)) in
        (
          ap (λ (x : Session). x.user_id) e,
          ap (λ (x : Session). x.ws_conn) e,
          ap (λ (x : Session). x.calls) e,
        );
  }
