-- ===== src/Console/Relay.antt =====
-- internal/console/relay_server.go: the rooms of the relay and the routing of packets. Streams and
-- connections are handles; `now` is the clock. A stream identifies its `PeerConn`, which the source
-- shares by pointer. What the server writes, closes and announces is kept in the state, oldest
-- first. A failed write is only logged. The metrics are left out.
pub mod Membership
pub mod Invariant
pub mod Loop
pub mod Steps
pub mod OneRoom
pub mod Tests
use gladiator.Prelude.{
  Option, ℕ, none, some, List, [], ◌∷◌, ◌++◌, Text, codes, if◌then◌else◌, ◌==◌, text_Eq, is_empty,
}
use gladiator.Prelude.Maps.{Map, lookup, insert, delete}

pub record RelayPacket : Type 0 where
  pub kind : Text
  pub room_id : Text
  pub from_id : Text
  pub to_id : Text
  pub payload : List ℕ

pub record PeerConn : Type 0 where
  pub id : Text
  pub room_id : Text
  pub stream : ℕ
  pub conn : ℕ
  pub last_seen : ℕ

pub record Room : Type 0 where
  pub id : Text
  pub peers : Map Text PeerConn

pub data EventKind : Type 0 where
  join leave delete_room : EventKind

pub record RelayEvent : Type 0 where
  pub kind : EventKind
  pub peer_id : Text
  pub room_id : Text

pub record RelayServer : Type 0 where
  pub rooms : Map Text Room
  pub peer_to_room_ids : Map Text Text
  pub written : List (ℕ × RelayPacket)
  pub closed : List (ℕ × Option ℕ)
  pub events : List RelayEvent

unfoldable pub new_relay : RelayServer
new_relay = record { rooms = []; peer_to_room_ids = []; written = []; closed = []; events = [] }

unfoldable pub send_signed : ℕ → RelayPacket → RelayServer → RelayServer
send_signed stream pkt rs = record rs { written = rs.written ++ ((stream, pkt) ∷ []) }

unfoldable pub emit : RelayEvent → RelayServer → RelayServer
emit event rs = record rs { events = rs.events ++ (event ∷ []) }

unfoldable pub close_stream : ℕ → ℕ → RelayServer → RelayServer
close_stream conn stream rs = record rs { closed = rs.closed ++ ((conn, some stream) ∷ []) }

abbrev pub room_or_new : Text → RelayServer → Room
room_or_new room_id rs = elim (lookup room_id rs.rooms) [
  | none ↦ record { id = room_id; peers = [] }
  | some room ↦ room
]

abbrev pub join_notice : Text → Text → Text → RelayPacket
join_notice room_id peer_id to_id = record {
  kind = codes "join";
  room_id = room_id;
  from_id = peer_id;
  to_id = to_id;
  payload = [];
}

-- The loop of `joinRoom` over the peers of the room.
unfoldable pub notify_joined : Text → Text → Map Text PeerConn → RelayServer → RelayServer
notify_joined room_id peer_id [] rs = rs
notify_joined room_id peer_id ((key, peer) ∷ peers) rs = notify_joined room_id peer_id peers (
    if peer.id == peer_id
    then rs
    else send_signed peer.stream (join_notice room_id peer_id peer.id) rs)

unfoldable pub join_room : RelayServer → Text → Text → ℕ → ℕ → ℕ → RelayServer
join_room rs room_id peer_id conn stream now =
    let room = room_or_new room_id rs in
    let pc : PeerConn = record {
      id = peer_id;
      room_id = room_id;
      stream = stream;
      conn = conn;
      last_seen = now;
    } in
    let peers = insert peer_id pc room.peers in
    let joined = record rs {
      rooms = insert room_id (record room { peers = peers }) rs.rooms;
      peer_to_room_ids = insert peer_id room_id rs.peer_to_room_ids;
    } in
    let notified = notify_joined room_id peer_id peers joined in
    emit (record { kind = join; peer_id = peer_id; room_id = room_id }) notified

-- The end of `leaveRoom`, once the peer is taken out of the room: an empty room is deleted.
unfoldable pub drop_peer : Text → Text → Room → RelayServer → RelayServer
drop_peer peer_id room_id room rs =
    let peers = delete peer_id room.peers in
    let rs = emit (record { kind = leave; peer_id = peer_id; room_id = room_id }) rs in
    if is_empty peers
    then emit (record { kind = delete_room; peer_id = peer_id; room_id = room_id })
        (record rs { rooms = delete room_id rs.rooms })
    else record rs { rooms = insert room_id (record room { peers = peers }) rs.rooms }

-- `leaveRoom` behind its first test.
unfoldable pub leave_known : Text → Text → RelayServer → RelayServer
unfolding drop_peer
leave_known peer_id room_id rs = elim (lookup room_id rs.rooms) [
  | none ↦ rs
  | some room ↦ elim (lookup peer_id room.peers) [
    | none ↦ rs
    | some leaver ↦ drop_peer peer_id room_id room (close_stream leaver.conn leaver.stream rs)
  ]
]

unfoldable pub leave_room : RelayServer → Text → Text → RelayServer
unfolding leave_known
leave_room rs peer_id room_id = elim (lookup peer_id rs.peer_to_room_ids) [
  | none ↦ rs
  | some _ ↦
      leave_known peer_id room_id
        (record rs { peer_to_room_ids = delete peer_id rs.peer_to_room_ids })
]

unfoldable pub send_to : RelayServer → Text → Text → RelayPacket → RelayServer
send_to rs room_id peer_id pkt = elim (lookup room_id rs.rooms) [
  | none ↦ rs
  | some room ↦ elim (lookup peer_id room.peers) [
    | none ↦ rs
    | some peer ↦ send_signed peer.stream pkt rs
  ]
]

unfoldable pub broadcast_to : Text → RelayPacket → Map Text PeerConn → RelayServer → RelayServer
broadcast_to from_id pkt [] rs = rs
broadcast_to from_id pkt ((key, peer) ∷ peers) rs =
    broadcast_to from_id pkt peers (if key == from_id then rs else send_signed peer.stream pkt rs)

unfoldable pub broadcast_from : RelayServer → Text → Text → RelayPacket → RelayServer
broadcast_from rs room_id from_id pkt = elim (lookup room_id rs.rooms) [
  | none ↦ rs
  | some room ↦ broadcast_to from_id pkt room.peers rs
]
