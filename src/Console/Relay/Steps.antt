-- ===== src/Console/Relay/Steps.antt =====
-- Whatever the connections do, in any order, the relay stays well formed.
use gladiator.Prelude.{
  none, ℕ, Bool, ◌≡◌, ap, ◌∙◌, refl, sym, inl, inr, some, List, [], ◌∷◌, Text, arith, if◌then◌else◌,
  ◌==◌, text_Eq, text_eq_iff, ◌&&◌, Option-cases, eqb, if_rule, codes, not, Option,
}
use gladiator.Prelude.Maps.{Map, lookup, insert, lookup-insert, is_empty-insert}
use gladiator.Console.Relay.{
  RelayPacket, PeerConn, Room, RelayServer, new_relay, leave_room, send_to, send_signed,
  broadcast_from, broadcast_to, close_stream,
}
use gladiator.Console.Relay.Membership.{peer_of, peer_in}
use gladiator.Console.Relay.Invariant.{
  IsRelay, new_relay-IsRelay, join_room-IsRelay, leave_room-IsRelay,
}
use gladiator.Console.Relay.Loop.{
  cleanup_peers, leave_all, stale_in_rooms, Decoder, handshake, handle_conn, relay_packet, touch,
}

-- What two states agree on when only writes and closed streams differ.
abbrev SameRooms : RelayServer → RelayServer → Type 0
SameRooms rs' rs = (rs'.rooms ≡ rs.rooms) × (rs'.peer_to_room_ids ≡ rs.peer_to_room_ids)

SameRooms-IsRelay : (rs' rs : RelayServer) → SameRooms rs' rs → IsRelay rs → IsRelay rs'
SameRooms-IsRelay rs' rs s v = record {
  room_key = λ r room h. v.room_key r room (sym (ap (lookup r) s.0) ∙ h);
  occupied = λ r room h. v.occupied r room (sym (ap (lookup r) s.0) ∙ h);
  peer_key = λ r p pc h. v.peer_key r p pc (sym (ap (λ m. peer_in (lookup r m) p) s.0) ∙ h);
  indexed = λ p r h.
      let (pc, e) = v.indexed p r (sym (ap (lookup p) s.1) ∙ h) in
      (pc, ap (λ m. peer_in (lookup r m) p) s.0 ∙ e);
}

broadcast_to-SameRooms :
    (from : Text) (pkt : RelayPacket) (peers : Map Text PeerConn) (rs : RelayServer)
    → SameRooms (broadcast_to from pkt peers rs) rs
unfolding broadcast_to send_signed
broadcast_to-SameRooms from pkt [] rs = ground arith
broadcast_to-SameRooms from pkt ((k, pc) ∷ peers) rs = ground (
  arith,
  broadcast_to-SameRooms from pkt peers (if k == from then rs else send_signed pc.stream pkt rs),
)

send_to-SameRooms :
    (rs : RelayServer) (r p : Text) (pkt : RelayPacket) → SameRooms (send_to rs r p pkt) rs
unfolding send_to send_signed
send_to-SameRooms rs r p pkt = ground arith

broadcast_from-SameRooms :
    (rs : RelayServer) (r p : Text) (pkt : RelayPacket) → SameRooms (broadcast_from rs r p pkt) rs
unfolding broadcast_from
broadcast_from-SameRooms rs r p pkt = elim (Option-cases (lookup r rs.rooms)) [
  | inl e ↦ rw (e, broadcast_from) (refl, refl)
  | inr (room, e) ↦ rw (e, broadcast_from) (broadcast_to-SameRooms p pkt room.peers rs)
]

-- Another `LastSeen` in a peer that is there.
module _ (rs : RelayServer) (r p : Text) (room : Room) (pc : PeerConn) (now : ℕ)
    (e : lookup r rs.rooms ≡ some room) (f : lookup p room.peers ≡ some pc) where
  abbrev seen : Room
  seen = record room { peers = insert p (record pc { last_seen = now }) room.peers }

  seen_found :
      (q x : Text)
      → peer_in (lookup q (insert r seen rs.rooms)) x
        ≡ (if r == q && p == x then some (record pc { last_seen = now }) else peer_of rs q x)
  seen_found q x =
      ap (λ o. peer_in o x) (lookup-insert q r seen rs.rooms)
      ∙ ground
          (arith, lookup-insert x p (record pc { last_seen = now }) room.peers, text_eq_iff r q, e)

  seen-IsRelay : IsRelay rs → IsRelay (record rs { rooms = insert r seen rs.rooms })
  seen-IsRelay v = record {
    room_key = λ q found h. ground (
      arith,
      lookup-insert q r seen rs.rooms,
      text_eq_iff r q,
      v.room_key q found,
      v.room_key r room e,
    );
    occupied = λ q found h. ground (
      arith,
      lookup-insert q r seen rs.rooms,
      v.occupied q found,
      is_empty-insert p (record pc { last_seen = now }) room.peers,
    );
    peer_key = λ q x found h. ground (
      arith,
      seen_found q x,
      v.peer_key q x found,
      v.peer_key r p pc (ap (λ o. peer_in o p) e ∙ f),
      text_eq_iff r q,
      text_eq_iff p x,
    );
    indexed = λ x q h. ground (arith, seen_found q x, v.indexed x q h);
  }

touch-IsRelay :
    (rs : RelayServer) (r p : Text) (stream now : ℕ)
    → IsRelay rs
    → IsRelay (touch rs r p stream now)
unfolding touch
touch-IsRelay rs r p stream now v = elim (Option-cases (lookup r rs.rooms)) [
  | inl e ↦ rw (e, touch) v
  | inr (room, e) ↦ elim (Option-cases (lookup p room.peers)) [
    | inl f ↦ rw (e, f, touch) v
    | inr (pc, f) ↦
        rw (e, f, touch)
          (if_rule IsRelay (eqb pc.stream stream) (seen-IsRelay rs r p room pc now e f v) v)
  ]
]

relay_packet-IsRelay :
    (rs : RelayServer) (r p : Text) (pkt : RelayPacket)
    → IsRelay rs
    → IsRelay (relay_packet rs r p pkt).0
unfolding relay_packet
relay_packet-IsRelay rs r p pkt v = if_rule P (pkt.kind == codes "udp") sent (
    if_rule P (pkt.kind == codes "tcp") sent (
      if_rule P (pkt.kind == codes "broadcast")
        (SameRooms-IsRelay _ rs (broadcast_from-SameRooms rs pkt.room_id pkt.from_id pkt) v)
        (if_rule P (pkt.kind == codes "leave")
          (if_rule P (not (pkt.from_id == p) && not (pkt.room_id == r)) v
            (leave_room-IsRelay rs p r v))
          v)))
  where
    P : RelayServer × Bool → Type 0
    P next = IsRelay next.0

    sent : IsRelay (send_to rs pkt.room_id pkt.to_id pkt)
    sent = SameRooms-IsRelay _ rs (send_to-SameRooms rs pkt.room_id pkt.to_id pkt) v

handle_conn-IsRelay :
    (json : Decoder) (has_session : ℕ → Bool) (rs : RelayServer) (conn : ℕ) (stream : Option ℕ)
    (now : ℕ) (read : Option (List ℕ))
    → IsRelay rs
    → IsRelay (handle_conn json has_session rs conn stream now read)
unfolding handle_conn close_stream
handle_conn-IsRelay json has_session rs conn none now read v = SameRooms-IsRelay _ rs (refl, refl) v
handle_conn-IsRelay json has_session rs conn (some stream) now read v =
    elim (Option-cases (handshake json has_session read)) [
      | inl e ↦ rw (e, handle_conn) (SameRooms-IsRelay _ rs (refl, refl) v)
      | inr ((p, r), e) ↦ rw (e, handle_conn) (join_room-IsRelay rs r p conn stream now v)
    ]

leave_all-IsRelay :
    (peers : List PeerConn) (rs : RelayServer) → IsRelay rs → IsRelay (leave_all peers rs)
unfolding leave_all
leave_all-IsRelay [] rs v = v
leave_all-IsRelay (peer ∷ peers) rs v =
    leave_all-IsRelay peers (leave_room rs peer.id peer.room_id)
      (leave_room-IsRelay rs peer.id peer.room_id v)

cleanup_peers-IsRelay :
    (timeout : ℕ) (rs : RelayServer) → IsRelay rs → IsRelay (cleanup_peers timeout rs)
unfolding cleanup_peers
cleanup_peers-IsRelay timeout rs v = leave_all-IsRelay (stale_in_rooms timeout rs.rooms) rs v

-- What one connection does under the server's lock, or what another part of the program asks.
pub data Step (json : Decoder) : RelayServer → RelayServer → Type 0 where
  accepted :
      (rs : RelayServer) (has_session : ℕ → Bool) (conn : ℕ) (stream : Option ℕ) (now : ℕ)
      (read : Option (List ℕ))
      → Step json rs (handle_conn json has_session rs conn stream now read)
  seen_at :
      (rs : RelayServer) (room_id peer_id : Text) (stream now : ℕ)
      → Step json rs (touch rs room_id peer_id stream now)
  received :
      (rs : RelayServer) (room_id peer_id : Text) (pkt : RelayPacket)
      → Step json rs (relay_packet rs room_id peer_id pkt).0
  left : (rs : RelayServer) (room_id peer_id : Text) → Step json rs (leave_room rs peer_id room_id)
  cleaned : (rs : RelayServer) (timeout : ℕ) → Step json rs (cleanup_peers timeout rs)

pub data Reach (json : Decoder) (rs : RelayServer) : RelayServer → Type 0 where
  here : Reach json rs rs
  next : {t u : RelayServer} → Reach json rs t → Step json t u → Reach json rs u

Step-IsRelay : (json : Decoder) {rs rs' : RelayServer} → Step json rs rs' → IsRelay rs → IsRelay rs'
Step-IsRelay json (accepted rs has_session conn stream now read) v =
    handle_conn-IsRelay json has_session rs conn stream now read v
Step-IsRelay json (seen_at rs r p stream now) v = touch-IsRelay rs r p stream now v
Step-IsRelay json (received rs r p pkt) v = relay_packet-IsRelay rs r p pkt v
Step-IsRelay json (left rs r p) v = leave_room-IsRelay rs p r v
Step-IsRelay json (cleaned rs timeout) v = cleanup_peers-IsRelay timeout rs v

-- From the new server on, however the connections' steps are interleaved, each room is kept under
-- its identifier and has a peer, each peer is kept under its identifier and knows its room, and the
-- index names a room in which the peer is.
pub Reach-IsRelay : (json : Decoder) {rs : RelayServer} → Reach json new_relay rs → IsRelay rs
Reach-IsRelay json here = new_relay-IsRelay
Reach-IsRelay json (next r s) = Step-IsRelay json s (Reach-IsRelay json r)
