-- ===== src/Console/Relay/Tests.antt =====
-- One peer, and a peer in two rooms.
use gladiator.Prelude.{◌≡◌, refl, inl, none, some, [], ◌∷◌, Text, text_Eq, text_eq, true}
use gladiator.Prelude.Maps.{lookup, insert}
use gladiator.Console.Relay.{RelayServer, new_relay, join_room, leave_room, notify_joined, emit}
use gladiator.Console.Relay.Loop.{Decoder, handle_conn}
use gladiator.Console.Relay.Membership.{peer_of}
use gladiator.Console.Relay.Invariant.{IsRelay}
use gladiator.Console.Relay.Steps.{Reach, here, next, accepted, left, Reach-IsRelay}
use gladiator.Console.Relay.OneRoom.{IsOneRoom, join_room-IsOneRoom, leave_room-IsOneRoom}

-- A peer and two rooms.
abbrev a : Text
a = 1 ∷ []

abbrev r : Text
r = 2 ∷ []

abbrev s : Text
s = 3 ∷ []

-- Every packet is a join of the peer in the first room.
abbrev joins : Decoder
joins = record {
  packet = λ bytes. some (record {
    kind = 106 ∷ 111 ∷ 105 ∷ 110 ∷ [];
    room_id = r;
    from_id = a;
    to_id = [];
    payload = [];
  });
  parse_int = λ t. 7;
}

-- The relay behind the connection of the peer, and behind its end.
abbrev connected : RelayServer
connected = handle_conn joins (λ id. true) new_relay 1 (some 2) 100 (some (5 ∷ []))

connected_reached : Reach joins new_relay (leave_room connected a r)
connected_reached =
    next (next here (accepted new_relay (λ id. true) 1 (some 2) 100 (some (5 ∷ []))))
      (left connected r a)

Reach-IsRelay_example : IsRelay (leave_room connected a r)
Reach-IsRelay_example = Reach-IsRelay joins connected_reached

new_relay-IsOneRoom : IsOneRoom new_relay
unfolding new_relay lookup
new_relay-IsOneRoom room peer pc h = absurd (cc h)

not_indexed : lookup a new_relay.peer_to_room_ids ≡ none
unfolding new_relay lookup
not_indexed = refl

join_room-IsOneRoom_example : IsOneRoom (join_room new_relay r a 1 2 100)
join_room-IsOneRoom_example =
    join_room-IsOneRoom new_relay r a 1 2 100 new_relay-IsOneRoom (inl not_indexed)

joined-IsOneRoom : IsOneRoom (join_room new_relay r a 1 2 100)
joined-IsOneRoom = join_room-IsOneRoom new_relay r a 1 2 100 new_relay-IsOneRoom (inl not_indexed)

joined_indexed : lookup a (join_room new_relay r a 1 2 100).peer_to_room_ids ≡ some r
unfolding new_relay lookup join_room insert notify_joined emit text_eq
joined_indexed = refl

leave_room-IsOneRoom_example :
    IsOneRoom (leave_room (join_room new_relay r a 1 2 100) a r)
    × (peer_of (leave_room (join_room new_relay r a 1 2 100) a r) r a ≡ none)
leave_room-IsOneRoom_example =
    leave_room-IsOneRoom (join_room new_relay r a 1 2 100) r a joined-IsOneRoom joined_indexed
