-- ===== src/Console/Relay/Invariant.antt =====
-- The relay's rooms and its index agree, and every operation keeps it so.
use gladiator.Prelude.{
  ℕ, ◌≡◌, ap, ◌∙◌, false, some, Text, arith, if◌then◌else◌, ◌==◌, text_Eq, is_empty, text_eq_iff,
  Option-cases, inl, inr,
}
use gladiator.Prelude.Maps.{Map, lookup, delete, lookup-insert, lookup-delete, is_empty-insert}
use gladiator.Console.Relay.{
  PeerConn, Room, RelayServer, new_relay, room_or_new, join_room, leave_room,
}
use gladiator.Console.Relay.Membership.{
  peer_of, peer_of-join_room, index-join_room, joined_room, rooms-join_room, joined_peer,
  peer_of-leave_room, index-leave_room, rooms_without, rooms-leave_room_cases, leave_room-unknown,
}

pub record IsRelay (rs : RelayServer) : Type 0 where
  -- A room is kept under its own identifier, and is not empty.
  pub room_key : (r : Text) (room : Room) → lookup r rs.rooms ≡ some room → room.id ≡ r
  pub occupied :
      (r : Text) (room : Room) → lookup r rs.rooms ≡ some room → is_empty room.peers ≡ false
  -- A peer is kept under its own identifier, and knows its room.
  pub peer_key :
      (r p : Text) (pc : PeerConn) → peer_of rs r p ≡ some pc → (pc.id ≡ p) × (pc.room_id ≡ r)
  -- The index names a room in which the peer is.
  pub indexed :
      (p r : Text)
      → lookup p rs.peer_to_room_ids ≡ some r
      → (pc : PeerConn) × (peer_of rs r p ≡ some pc)

pub new_relay-IsRelay : IsRelay new_relay
unfolding new_relay lookup
new_relay-IsRelay = record {
  room_key = λ r room h. absurd (cc h);
  occupied = λ r room h. absurd (cc h);
  peer_key = λ r p pc h. absurd (cc h);
  indexed = λ p r h. absurd (cc h);
}

room_or_new-id : (rs : RelayServer) (r : Text) → IsRelay rs → (room_or_new r rs).id ≡ r
room_or_new-id rs r v = elim (Option-cases (lookup r rs.rooms)) [
  | inl e ↦ rw (e, room_or_new)
  | inr (room, e) ↦ rw (e, room_or_new) (v.room_key r room e)
]

-- A join keeps the relay well formed.
pub join_room-IsRelay :
    (rs : RelayServer) (r p : Text) (conn stream now : ℕ)
    → IsRelay rs
    → IsRelay (join_room rs r p conn stream now)
join_room-IsRelay rs r p conn stream now v = record {
  room_key = λ q room h.
      ground (arith, found q, text_eq_iff r q, v.room_key q room, room_or_new-id rs r v);
  occupied = λ q room h.
      ground (arith, found q, v.occupied q room, is_empty-insert p pc (room_or_new r rs).peers);
  peer_key = λ q x pc h. ground (
    arith,
    peer_of-join_room rs r p conn stream now q x,
    v.peer_key q x pc,
    text_eq_iff r q,
    text_eq_iff p x,
  );
  indexed = λ x q h. ground (
    arith,
    peer_of-join_room rs r p conn stream now q x,
    index-join_room rs r p conn stream now x,
    v.indexed x q,
    text_eq_iff r q,
  );
}
  where
    pc : PeerConn
    pc = joined_peer r p conn stream now

    found :
        (q : Text)
        → lookup q (join_room rs r p conn stream now).rooms
          ≡ (if r == q then some (joined_room rs r p conn stream now) else lookup q rs.rooms)
    found q =
        ap (lookup q) (rooms-join_room rs r p conn stream now)
        ∙ lookup-insert q r (joined_room rs r p conn stream now) rs.rooms

-- What is asked of the rooms alone.
abbrev AreRooms : Map Text Room → Type 0
AreRooms rooms =
    (r : Text) (room : Room)
    → lookup r rooms ≡ some room
    → (room.id ≡ r) × (is_empty room.peers ≡ false)

rooms_without-AreRooms :
    (rooms : Map Text Room) (p r : Text) (room : Room)
    → AreRooms rooms
    → lookup r rooms ≡ some room
    → AreRooms (rooms_without p r room rooms)
rooms_without-AreRooms rooms p r room v e q found h = ground (
  arith,
  lookup-delete q r rooms,
  lookup-insert q r (record room { peers = delete p room.peers }) rooms,
  v q found,
  v r room,
  text_eq_iff r q,
)

leave_room-AreRooms :
    (rs : RelayServer) (p r : Text) → IsRelay rs → AreRooms (leave_room rs p r).rooms
leave_room-AreRooms rs p r v =
    rooms-leave_room_cases AreRooms rs p r kept
      (λ room e. rooms_without-AreRooms rs.rooms p r room kept e)
  where
    kept : AreRooms rs.rooms
    kept q room h = (v.room_key q room h, v.occupied q room h)

-- A call of `leave_room` keeps the relay well formed.
pub leave_room-IsRelay : (rs : RelayServer) (p r : Text) → IsRelay rs → IsRelay (leave_room rs p r)
leave_room-IsRelay rs p r v = elim (Option-cases (lookup p rs.peer_to_room_ids)) [
  | inl e ↦ rw (leave_room-unknown rs p r e) v
  | inr (s, e) ↦ record {
    room_key = λ q room h. (leave_room-AreRooms rs p r v q room h).0;
    occupied = λ q room h. (leave_room-AreRooms rs p r v q room h).1;
    peer_key = λ q x pc h. ground (arith, peer_of-leave_room rs p r s q x e, v.peer_key q x pc);
    indexed = λ x q h.
        ground (arith, peer_of-leave_room rs p r s q x e, index-leave_room rs p r x, v.indexed x q);
  }
]
