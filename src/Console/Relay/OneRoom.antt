-- ===== src/Console/Relay/OneRoom.antt =====
-- A peer in one room at a time, and a peer in two.
use gladiator.Prelude.{ℕ, ◌≡◌, ◌⊎◌, none, some, Text, arith, text_Eq, text_eq_iff}
use gladiator.Prelude.Maps.{lookup}
use gladiator.Console.Relay.{PeerConn, RelayServer, join_room, leave_room}
use gladiator.Console.Relay.Membership.{
  peer_of, peer_of-join_room, index-join_room, peer_of-leave_room, index-leave_room,
}

-- Each peer of a room is indexed in that room, so it is in no other.
abbrev pub IsOneRoom : RelayServer → Type 0
IsOneRoom rs =
    (r p : Text) (pc : PeerConn) → peer_of rs r p ≡ some pc → lookup p rs.peer_to_room_ids ≡ some r

-- A join of a peer that is in no other room keeps each peer in one room.
pub join_room-IsOneRoom :
    (rs : RelayServer) (r p : Text) (conn stream now : ℕ)
    → IsOneRoom rs
    → (lookup p rs.peer_to_room_ids ≡ none) ⊎ (lookup p rs.peer_to_room_ids ≡ some r)
    → IsOneRoom (join_room rs r p conn stream now)
join_room-IsOneRoom rs r p conn stream now v alone q x pc h = ground (
  arith,
  peer_of-join_room rs r p conn stream now q x,
  index-join_room rs r p conn stream now x,
  v q x pc,
  text_eq_iff r q,
  text_eq_iff p x,
)

-- A call of `leave_room` that names the room which the index has takes the peer out of it, and keeps
-- each peer in one room.
pub leave_room-IsOneRoom :
    (rs : RelayServer) (r p : Text)
    → IsOneRoom rs
    → lookup p rs.peer_to_room_ids ≡ some r
    → IsOneRoom (leave_room rs p r) × (peer_of (leave_room rs p r) r p ≡ none)
leave_room-IsOneRoom rs r p v e = (
  λ q x pc h. ground (
    arith,
    peer_of-leave_room rs p r r q x e,
    index-leave_room rs p r x,
    v q x pc,
    text_eq_iff r q,
    text_eq_iff p x,
  ),
  ground (arith, peer_of-leave_room rs p r r r p e, text_eq_iff r r, text_eq_iff p p),
)
