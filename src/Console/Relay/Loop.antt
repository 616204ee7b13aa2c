-- ===== src/Console/Relay/Loop.antt =====
-- internal/console/relay_server.go, `handshake`, `handleConn`, `relayLoop` and `cleanupPeers`, and the signature
-- check of internal/console/utilities.go. The JSON decoder and `strconv.ParseInt` are parameters.
-- Other connections act between any two steps of a loop, so a loop is given by its steps: what one
-- packet does, and what the end of the stream does (`leave_room`).
use gladiator.Prelude.{
  ℕ, ltb, ◌++◌, Bool, true, false, ◌&&◌, not, Option, none, some, List, [], ◌∷◌, Text, codes,
  if◌then◌else◌, ◌==◌, text_Eq, eqb,
}
use gladiator.Prelude.Maps.{Map, lookup, insert}
use gladiator.Console.Relay.{
  RelayPacket, PeerConn, Room, RelayServer, join_room, leave_room, send_to, broadcast_from,
  close_stream,
}

-- What the server takes from `encoding/json` and `strconv`.
pub record Decoder : Type 0 where
  pub packet : List ℕ → Option RelayPacket
  -- 0 for a text that is no number
  pub parse_int : Text → ℕ

-- The check of the signature is switched off.
unfoldable pub verify : List ℕ → Option (List ℕ)
verify packet = some packet

-- `read` is what the stream gave, `none` for an error; the answer is the peer and its room.
unfoldable pub handshake : Decoder → (ℕ → Bool) → Option (List ℕ) → Option (Text × Text)
unfolding verify
handshake json has_session none = none
handshake json has_session (some buf) = elim (verify buf) [
  | none ↦ none
  | some data_ ↦ elim (json.packet data_) [
    | none ↦ none
    | some pkt ↦
        if not (pkt.kind == codes "join")
        then none
        else if not (has_session (json.parse_int pkt.from_id))
        then none
        else some (pkt.from_id, pkt.room_id)
  ]
]

-- Without a stream the connection alone is closed; a failed handshake closes the stream and the connection.
unfoldable pub handle_conn :
    Decoder → (ℕ → Bool) → RelayServer → ℕ → Option ℕ → ℕ → Option (List ℕ) → RelayServer
unfolding handshake
handle_conn json has_session rs conn none now read = record rs {
  closed = rs.closed ++ ((conn, none) ∷ []);
}
handle_conn json has_session rs conn (some stream) now read =
    elim (handshake json has_session read) [
      | none ↦ close_stream conn stream rs
      | some (peer_id, room_id) ↦ join_room rs room_id peer_id conn stream now
    ]

-- One packet of the connection of `peer_id` in `room_id`; `true` says that the loop returns.
unfoldable pub relay_packet : RelayServer → Text → Text → RelayPacket → RelayServer × Bool
relay_packet rs room_id peer_id pkt =
    if pkt.kind == codes "udp"
    then (send_to rs pkt.room_id pkt.to_id pkt, false)
    else if pkt.kind == codes "tcp"
    then (send_to rs pkt.room_id pkt.to_id pkt, false)
    else if pkt.kind == codes "broadcast"
    then (broadcast_from rs pkt.room_id pkt.from_id pkt, false)
    else if pkt.kind == codes "leave"
    then (if not (pkt.from_id == peer_id) && not (pkt.room_id == room_id)
        then (rs, false)
        else (leave_room rs peer_id room_id, true))
    else (rs, false)

-- The packets of one read, up to the one at which the loop returns.
unfoldable pub relay_packets : RelayServer → Text → Text → List RelayPacket → RelayServer × Bool
unfolding relay_packet
relay_packets rs room_id peer_id [] = (rs, false)
relay_packets rs room_id peer_id (pkt ∷ pkts) =
    let next = relay_packet rs room_id peer_id pkt in
    let later = relay_packets next.0 room_id peer_id pkts in if next.1 then next else later

-- `peer.LastSeen = now`, on the `PeerConn` of this stream; one that was replaced in the room since is
-- no longer reached through it.
unfoldable pub touch : RelayServer → Text → Text → ℕ → ℕ → RelayServer
touch rs room_id peer_id stream now = elim (lookup room_id rs.rooms) [
  | none ↦ rs
  | some room ↦ elim (lookup peer_id room.peers) [
    | none ↦ rs
    | some pc ↦
        if eqb pc.stream stream
        then record rs {
          rooms =
              insert room_id
                (record room { peers = insert peer_id (record pc { last_seen = now }) room.peers })
                rs.rooms;
        }
        else rs
  ]
]

-- `cleanupPeers`, at one tick: the peers that were last seen before `timeout`, with their rooms.
unfoldable pub stale_peers : ℕ → Map Text PeerConn → List PeerConn
stale_peers timeout [] = []
stale_peers timeout ((id, peer) ∷ peers) =
    if ltb peer.last_seen timeout
    then peer ∷ stale_peers timeout peers
    else stale_peers timeout peers

unfoldable pub stale_in_rooms : ℕ → Map Text Room → List PeerConn
unfolding stale_peers
stale_in_rooms timeout [] = []
stale_in_rooms timeout ((id, room) ∷ rooms) =
    stale_peers timeout room.peers ++ stale_in_rooms timeout rooms

unfoldable pub leave_all : List PeerConn → RelayServer → RelayServer
leave_all [] rs = rs
leave_all (peer ∷ peers) rs = leave_all peers (leave_room rs peer.id peer.room_id)

unfoldable pub cleanup_peers : ℕ → RelayServer → RelayServer
unfolding stale_in_rooms leave_all
cleanup_peers timeout rs = leave_all (stale_in_rooms timeout rs.rooms) rs
