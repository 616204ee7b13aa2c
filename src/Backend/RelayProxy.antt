-- ===== src/Backend/RelayProxy.antt =====
-- internal/backend/proxy/relay: the fake hosts of one game client, whose traffic goes through the relay
-- server. QUIC, JSON, sockets, timers and the printing of numbers are libraries: `World` holds what
-- they answer, which may depend on the state. The callbacks that a fake host is started with are kept
-- as the `Route` of its traffic. What is written to streams and proxies, and what is closed, is kept
-- in the state, oldest first. Each definition is one operation of the router, or a part of one.
pub mod Router
pub mod Rooms
pub mod Client
pub mod Routes
pub mod Kept
pub mod Handled
pub mod Joining
pub mod Steps
pub mod Delivery
pub mod Migration
pub mod Rebinding
pub mod Succession
pub mod Tests
use gladiator.Prelude.{
  ℕ, Bool, true, false, Option, none, some, List, [], ◌∷◌, ◌++◌, Text, codes, if◌then◌else◌, eqb,
}
use gladiator.Wire.{Codec}
use gladiator.Console.Relay.{RelayPacket}
use gladiator.Backend.HostManager.{HostManager, Net, stop_all, stop_host}
use gladiator.Backend.Session.{Services, Session, Outcome, done, panic}

-- The room and the peer that the callbacks of a host send to, and whether there is one for TCP.
pub record Route : Type 0 where
  pub room_id : Text
  pub to_id : Text
  pub tcp : Bool

pub record PacketRouter : Type 0 where
  pub manager : HostManager
  pub session : Session
  pub self_id : Text
  pub room_id : Text
  pub current_host_id : Text
  pub relay_conn : Option ℕ
  pub stream : Option ℕ
  pub ping_ticker : Option ℕ
  pub routes : ℕ → Route
  -- the bytes written to streams, and to the proxies of hosts
  pub sent : List (ℕ × List ℕ)
  pub delivered : List (ℕ × List ℕ)
  -- the streams and connections closed, and the tickers stopped
  pub closed : List (ℕ × ℕ)
  pub stopped_tickers : List ℕ

pub record World : Type 0 where
  pub net : Net
  pub services : Services
  pub codec : Codec
  -- `strconv.Itoa`
  pub decimal : ℕ → Text
  -- `net.ParseIP(ip).To4()`
  pub ip_bytes : Text → List ℕ
  pub now : HostManager → ℕ
  pub dial_tcp : HostManager → Option ℕ
  pub dial_udp : HostManager → Option ℕ
  pub listen_tcp : HostManager → Text → Option ℕ
  pub listen_udp : HostManager → Text → Option ℕ
  pub marshal : RelayPacket → Option (List ℕ)
  -- the values that the JSON decoder finds in what was read, up to the end or an error
  pub packets : List ℕ → List RelayPacket
  pub dial_relay : PacketRouter → Option ℕ
  pub open_stream : PacketRouter → Option ℕ
  pub write_stream : PacketRouter → ℕ → List ℕ → Bool
  pub new_ticker : PacketRouter → ℕ
  -- whether the game server answers at an address
  pub probes : PacketRouter → Text → Bool

abbrev pub ticker_list : Option ℕ → List ℕ
ticker_list none = []
ticker_list (some t) = t ∷ []

abbrev pub cleared : PacketRouter → PacketRouter
cleared r = record r {
  stopped_tickers = r.stopped_tickers ++ ticker_list r.ping_ticker;
  manager = stop_all r.manager;
  room_id = [];
  current_host_id = [];
}

-- The connection, the stream and the ticker stay in their fields. `none` is the panic on the nil stream of a
-- connection whose stream did not open.
unfoldable pub reset : PacketRouter → Option PacketRouter
unfolding stop_all
reset r = elim r.relay_conn [
  | none ↦ some (cleared r)
  | some conn ↦ elim r.stream [
    | none ↦ none
    | some stream ↦ some (record (cleared r) { closed = r.closed ++ ((stream, conn) ∷ []) })
  ]
]

-- `none` is an error. `fromID` is always the client's own.
unfoldable pub send_packet : World → RelayPacket → PacketRouter → Option PacketRouter
send_packet w pkt r = elim r.stream [
  | none ↦ none
  | some stream ↦ elim (w.marshal (record pkt { from_id = r.self_id })) [
    | none ↦ none
    | some data_ ↦
        let line = data_ ++ (10 ∷ []) in
        if w.write_stream r stream line
        then some (record r { sent = r.sent ++ ((stream, line) ∷ []) })
        else none
  ]
]

-- The client's own packets, without their sender.
abbrev pub own_packet : Text → Text → List ℕ → RelayPacket
own_packet kind room_id payload = record {
  kind = kind;
  room_id = room_id;
  from_id = [];
  to_id = [];
  payload = payload;
}

-- The router, and whether there was no error. A connection whose stream does not open is kept.
unfoldable pub connect : World → Text → PacketRouter → PacketRouter × Bool
unfolding send_packet
connect w room_id r = elim (w.dial_relay r) [
  | none ↦ (r, false)
  | some conn ↦
      let dialled = record r { relay_conn = some conn } in
      elim (w.open_stream dialled) [
        | none ↦ (dialled, false)
        | some stream ↦
            let opened = record dialled { stream = some stream } in
            elim (send_packet w (own_packet (codes "join") room_id []) opened) [
              | none ↦ (opened, false)
              | some joined ↦ (joined, true)
            ]
      ]
]

-- `keepAliveHost` starts the ticker anew.
unfoldable pub keep_alive_host : World → PacketRouter → PacketRouter
keep_alive_host w r = record r {
  stopped_tickers = r.stopped_tickers ++ ticker_list r.ping_ticker;
  ping_ticker = some (w.new_ticker r);
}

-- One tick of it: a ping that fails resets the router.
unfoldable pub ping : World → PacketRouter → PacketRouter × Outcome
unfolding send_packet reset
ping w r = elim (send_packet w (own_packet (codes "ping") [] []) r) [
  | none ↦ elim (reset r) [ none ↦ (r, panic) | some r ↦ (r, done) ]
  | some pinged ↦ (pinged, done)
]

-- `stop`, when the probe of a host finds it gone.
unfoldable pub stop : ℕ → Text → PacketRouter → PacketRouter
unfolding stop_host
stop host ip_address r = record r { manager = stop_host host ip_address r.manager }

-- What the game sends to a fake host goes to the route of the host: `onUDPMessage` and `onTCPMessage`.
abbrev pub relayed : Text → Route → List ℕ → RelayPacket
relayed kind route p = record {
  kind = kind;
  room_id = route.room_id;
  from_id = [];
  to_id = route.to_id;
  payload = p;
}

unfoldable pub on_udp_message : World → ℕ → List ℕ → PacketRouter → Option PacketRouter
unfolding send_packet
on_udp_message w host p r = send_packet w (relayed (codes "udp") (r.routes host) p) r

-- A host that was started without a callback for TCP has no TCP proxy either.
unfoldable pub on_tcp_message : World → ℕ → List ℕ → PacketRouter → Option PacketRouter
unfolding send_packet
on_tcp_message w host p r =
    if (r.routes host).tcp then send_packet w (relayed (codes "tcp") (r.routes host) p) r else none

-- The router behind the start of a host with the callbacks of a route.
abbrev pub routed : Route → ℕ → HostManager → PacketRouter → PacketRouter
routed route host hm r = record r {
  manager = hm;
  routes = λ h. if eqb h host then route else r.routes h;
}
