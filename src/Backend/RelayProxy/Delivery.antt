-- ===== src/Backend/RelayProxy/Delivery.antt =====
-- From game to game: a fake host of one client, the relay server, and a fake host of another client.
use gladiator.Prelude.{
  ℕ, ◌≡◌, refl, ap, ◌∙◌, ◌⊎◌, inl, inr, true, false, Option, none, some, List, [], ◌∷◌, ◌++◌, Text,
  text_Eq, text_eq, codes, Option-cases,
}
use gladiator.Prelude.Maps.{lookup}
use gladiator.Console.Relay.{RelayPacket, RelayServer, Room, PeerConn, send_to, send_signed}
use gladiator.Console.Relay.Loop.{relay_packet, relay_packets}
use gladiator.Backend.HostManager.{is_running}
use gladiator.Backend.Session.{Outcome, done, error, panic}
use gladiator.Backend.RelayProxy.{PacketRouter, World, send_packet, on_udp_message, relayed}
use gladiator.Backend.RelayProxy.Router.{write_udp, receive_packet, receive_packets, receive}
use gladiator.Backend.RelayProxy.Routes.{IsRouted}

running_proxy : (o : Option ℕ) → is_running o ≡ true → (proxy : ℕ) × (o ≡ some proxy)
running_proxy none h = absurd (cc h)
running_proxy (some proxy) h = (proxy, refl)

-- A datagram of the relay reaches the game through the fake host of its sender, and what the game answers
-- there goes back to the sender; from a peer without a fake host it is dropped. It never panics.
pub write_udp_lem :
    (w : World) (r : PacketRouter) (pkt : RelayPacket)
    → IsRouted r.manager r.routes
    → ((lookup pkt.from_id r.manager.peer_hosts ≡ none) × (write_udp pkt.from_id pkt r ≡ (r, done)))
      ⊎ ((host : ℕ) × (proxy : ℕ) × (lookup pkt.from_id r.manager.peer_hosts ≡ some host)
          × ((r.manager.heap host).proxy_udp ≡ some proxy)
          × (write_udp pkt.from_id pkt r
              ≡ (record r { delivered = r.delivered ++ ((proxy, pkt.payload) ∷ []) }, done))
          × ((r.routes host).to_id ≡ pkt.from_id))
unfolding write_udp
write_udp_lem w r pkt v = elim (Option-cases (lookup pkt.from_id r.manager.peer_hosts)) [
  | inl e ↦ inl (e, rw (e, write_udp) refl)
  | inr (host, e) ↦
      let (proxy, f) =
        running_proxy (r.manager.heap host).proxy_udp
          (v.datagrams host (v.older pkt.from_id host e)) in
      inr (host, proxy, e, f, rw (e, f, write_udp) refl, v.leads pkt.from_id host e)
]

-- The datagram that client `a` sends for its fake host `host`.
abbrev pub datagram : PacketRouter → ℕ → List ℕ → RelayPacket
datagram a host p = record (relayed (codes "udp") (a.routes host) p) { from_id = a.self_id }

-- A packet that is marshalled and written.
send_packet-written :
    (w : World) (pkt : RelayPacket) (r : PacketRouter) (stream : ℕ) (data_ : List ℕ)
    → r.stream ≡ some stream
    → w.marshal (record pkt { from_id = r.self_id }) ≡ some data_
    → w.write_stream r stream (data_ ++ (10 ∷ [])) ≡ true
    → send_packet w pkt r ≡ some (record r { sent = r.sent ++ ((stream, data_ ++ (10 ∷ [])) ∷ []) })
unfolding send_packet
send_packet-written w pkt r stream data_ s m wr =
    rw (s, send_packet, m, wr)
      (ap
        (λ (o : Option ℕ).
          some (record r { stream = o; sent = r.sent ++ ((stream, data_ ++ (10 ∷ [])) ∷ []) }))
        s)

-- A datagram, whoever it names.
abbrev udp_packet : Text → Text → Text → List ℕ → RelayPacket
udp_packet room_id from_id to_id payload = record {
  kind = codes "udp";
  room_id = room_id;
  from_id = from_id;
  to_id = to_id;
  payload = payload;
}

-- The relay passes a datagram on to the peer that it names, if the room has it.
relay_packets-datagram :
    (rs : RelayServer) (own id room_id from_id to_id : Text) (p : List ℕ) (room : Room)
    (pc : PeerConn)
    → lookup room_id rs.rooms ≡ some room
    → lookup to_id room.peers ≡ some pc
    → relay_packets rs own id (udp_packet room_id from_id to_id p ∷ []) ≡ (
      record rs { written = rs.written ++ ((pc.stream, udp_packet room_id from_id to_id p) ∷ []) },
      false,
    )
unfolding relay_packets relay_packet send_to send_signed text_eq
relay_packets-datagram rs own id room_id from_id to_id p room pc er ep = rw (er, send_to, ep) refl

-- A read of one packet.
receive_packets-one :
    (w : World) (pkt : RelayPacket) (r r' : PacketRouter)
    → receive_packet w pkt r ≡ (r', done)
    → receive_packets w (pkt ∷ []) r ≡ (r', done)
unfolding receive_packets
receive_packets-one w pkt r r' h =
    ap
      (λ (x : PacketRouter × Outcome). elim x.1 as (λ _. PacketRouter × Outcome) [
        | done ↦ (x.0, done)
        | error ↦ (x.0, done)
        | panic ↦ (x.0, panic)
      ])
      h

receive_packet-datagram :
    (w : World) (r : PacketRouter) (room_id from_id to_id : Text) (p : List ℕ) (host proxy : ℕ)
    → lookup from_id r.manager.peer_hosts ≡ some host
    → (r.manager.heap host).proxy_udp ≡ some proxy
    → receive_packet w (udp_packet room_id from_id to_id p) r
      ≡ (record r { delivered = r.delivered ++ ((proxy, p) ∷ []) }, done)
unfolding receive_packet write_udp text_eq
receive_packet-datagram w r room_id from_id to_id p host proxy e f = rw (e, write_udp, f) refl

-- Let the clients `a` and `b` have fake hosts for each other, let `b` be a peer of the room of `a`'s host at the
-- relay, and let the packet's line be written whole and decode to the packet. Then what the game of `a` sends
-- to the fake host of `b` is one line on the stream of `a`; the relay writes its packet on the stream of `b` and
-- changes nothing else; and `b` hands the same bytes to its game at the fake host of `a`.
pub relayed_datagram :
    (w : World) (a b : PacketRouter) (rs : RelayServer) (room : Room) (pc : PeerConn) (own : Text)
    (at to stream : ℕ) (p data_ : List ℕ)
    → IsRouted a.manager a.routes
    → IsRouted b.manager b.routes
    → lookup b.self_id a.manager.peer_hosts ≡ some at
    → lookup a.self_id b.manager.peer_hosts ≡ some to
    → a.stream ≡ some stream
    → w.marshal (datagram a at p) ≡ some data_
    → w.write_stream a stream (data_ ++ (10 ∷ [])) ≡ true
    → w.packets (data_ ++ (10 ∷ [])) ≡ datagram a at p ∷ []
    → lookup (a.routes at).room_id rs.rooms ≡ some room
    → lookup b.self_id room.peers ≡ some pc
    → (on_udp_message w at p a
        ≡ some (record a { sent = a.sent ++ ((stream, data_ ++ (10 ∷ [])) ∷ []) }))
      × (relay_packets rs own a.self_id (w.packets (data_ ++ (10 ∷ [])))
          ≡ (record rs { written = rs.written ++ ((pc.stream, datagram a at p) ∷ []) }, false))
      × (proxy : ℕ) × ((b.manager.heap to).proxy_udp ≡ some proxy)
      × (receive w (data_ ++ (10 ∷ [])) b
          ≡ (record b { delivered = b.delivered ++ ((proxy, p) ∷ []) }, done))
unfolding on_udp_message receive
relayed_datagram w a b rs room pc own at to stream p data_ va vb ha hb s m wr js er ep =
    let (proxy, f) =
      running_proxy (b.manager.heap to).proxy_udp (vb.datagrams to (vb.older a.self_id to hb)) in
    let pkt : RelayPacket = datagram a at p in
    let ep' : lookup pkt.to_id room.peers ≡ some pc =
      ap (λ k. lookup k room.peers) (va.leads b.self_id at ha) ∙ ep in
    (
      send_packet-written w (relayed (codes "udp") (a.routes at) p) a stream data_ s m wr,
      ap (relay_packets rs own a.self_id) js
          ∙ relay_packets-datagram rs own a.self_id pkt.room_id pkt.from_id pkt.to_id p room pc er
              ep',
      proxy,
      f,
      ap (λ l. receive_packets w l b) js
          ∙ receive_packets-one w pkt b _
              (receive_packet-datagram w b pkt.room_id pkt.from_id pkt.to_id p to proxy hb f),
    )
