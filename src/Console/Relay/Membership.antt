-- ===== src/Console/Relay/Membership.antt =====
-- Who is in which room of the relay.
use gladiator.Prelude.{
  ℕ, ◌≡◌, refl, ap, ◌∙◌, Option, none, some, [], ◌∷◌, Text, arith, if◌then◌else◌, ◌==◌, text_Eq,
  is_empty, ◌&&◌, text_eq_iff, Option-cases, inl, inr,
}
use gladiator.Prelude.Maps.{
  Map, lookup, insert, delete, lookup-insert, lookup-delete, lookup-is_empty,
}
use gladiator.Console.Relay.{
  PeerConn, Room, RelayServer, room_or_new, notify_joined, join_room, drop_peer, leave_known,
  leave_room, emit, send_signed, close_stream, join_notice,
}

-- A peer of a room, by its identifier.
abbrev pub peer_in : Option Room → Text → Option PeerConn
peer_in none peer_id = none
peer_in (some room) peer_id = lookup peer_id room.peers

abbrev pub peer_of : RelayServer → Text → Text → Option PeerConn
peer_of rs room_id peer_id = peer_in (lookup room_id rs.rooms) peer_id

-- The notices change neither the rooms nor the index.
notify_joined_keeps :
    (r p : Text) (peers : Map Text PeerConn) (rs : RelayServer)
    → ((notify_joined r p peers rs).rooms ≡ rs.rooms)
      × ((notify_joined r p peers rs).peer_to_room_ids ≡ rs.peer_to_room_ids)
unfolding notify_joined send_signed
notify_joined_keeps r p [] rs = (refl, refl)
notify_joined_keeps r p ((k, pc) ∷ peers) rs =
    let ih =
      notify_joined_keeps r p peers
        (if pc.id == p then rs else send_signed pc.stream (join_notice r p pc.id) rs) in
    ground (arith, ih)

abbrev pub joined_peer : Text → Text → ℕ → ℕ → ℕ → PeerConn
joined_peer r p conn stream now = record {
  id = p;
  room_id = r;
  stream = stream;
  conn = conn;
  last_seen = now;
}

abbrev pub joined_room : RelayServer → Text → Text → ℕ → ℕ → ℕ → Room
joined_room rs r p conn stream now = record (room_or_new r rs) {
  peers = insert p (joined_peer r p conn stream now) (room_or_new r rs).peers;
}

-- What a join changes.
module _ (rs : RelayServer) (r p : Text) (conn stream now : ℕ) where
  pub rooms-join_room :
      (join_room rs r p conn stream now).rooms
      ≡ insert r (joined_room rs r p conn stream now) rs.rooms
  unfolding join_room emit
  rooms-join_room = (notify_joined_keeps r p (joined_room rs r p conn stream now).peers _).0

  pub index-join_room :
      (x : Text)
      → lookup x (join_room rs r p conn stream now).peer_to_room_ids
        ≡ (if p == x then some r else lookup x rs.peer_to_room_ids)
  unfolding join_room emit
  index-join_room x =
      ap (lookup x) (notify_joined_keeps r p (joined_room rs r p conn stream now).peers _).1
      ∙ lookup-insert x p r rs.peer_to_room_ids

  room_or_new-peers : (x : Text) → lookup x (room_or_new r rs).peers ≡ peer_of rs r x
  unfolding lookup
  room_or_new-peers x = elim (Option-cases (lookup r rs.rooms)) [
    | inl e ↦ rw (e, room_or_new)
    | inr (room, e) ↦ rw (e, room_or_new)
  ]

  -- Every peer before a join, and the one that joined.
  pub peer_of-join_room :
      (q x : Text)
      → peer_of (join_room rs r p conn stream now) q x
        ≡ (if r == q && p == x then some (joined_peer r p conn stream now) else peer_of rs q x)
  peer_of-join_room q x =
      ap (λ m. peer_in (lookup q m) x) rooms-join_room
      ∙ ap (λ o. peer_in o x) (lookup-insert q r (joined_room rs r p conn stream now) rs.rooms)
      ∙ ground (
        arith,
        lookup-insert x p (joined_peer r p conn stream now) (room_or_new r rs).peers,
        room_or_new-peers x,
        text_eq_iff r q,
      )

-- The rooms after a peer is taken out of one.
abbrev pub rooms_without : Text → Text → Room → Map Text Room → Map Text Room
rooms_without p r room rooms =
    if is_empty (delete p room.peers)
    then delete r rooms
    else insert r (record room { peers = delete p room.peers }) rooms

rooms-drop_peer :
    (p r : Text) (room : Room) (rs : RelayServer)
    → (drop_peer p r room rs).rooms ≡ rooms_without p r room rs.rooms
unfolding drop_peer emit
rooms-drop_peer p r room rs = ground arith

peer_in-rooms_without :
    (p r q x : Text) (room : Room) (rooms : Map Text Room)
    → lookup r rooms ≡ some room
    → peer_in (lookup q (rooms_without p r room rooms)) x
      ≡ (if r == q && p == x then none else peer_in (lookup q rooms) x)
peer_in-rooms_without p r q x room rooms e = ground (
  arith,
  lookup-delete q r rooms,
  lookup-insert q r (record room { peers = delete p room.peers }) rooms,
  lookup-delete x p room.peers,
  lookup-is_empty x (delete p room.peers),
  text_eq_iff r q,
)

-- What a peer's leaving changes.
module _ (rs : RelayServer) (p r : Text) where
  leave_known-none : lookup r rs.rooms ≡ none → leave_known p r rs ≡ rs
  unfolding leave_known
  leave_known-none e = rw (e, leave_known)

  leave_known-stranger :
      (room : Room)
      → lookup r rs.rooms ≡ some room
      → lookup p room.peers ≡ none
      → leave_known p r rs ≡ rs
  unfolding leave_known
  leave_known-stranger room e h = rw (e, h, leave_known)

  leave_known-rooms :
      (room : Room) (leaver : PeerConn)
      → lookup r rs.rooms ≡ some room
      → lookup p room.peers ≡ some leaver
      → (leave_known p r rs).rooms ≡ rooms_without p r room rs.rooms
  unfolding leave_known close_stream
  leave_known-rooms room leaver e h =
      rw (e, h, leave_known) (rooms-drop_peer p r room (close_stream leaver.conn leaver.stream rs))

  -- The peer is taken out of the room that the call names, and nobody else is.
  pub leave_known-peer_of :
      (q x : Text)
      → peer_of (leave_known p r rs) q x ≡ (if r == q && p == x then none else peer_of rs q x)
  leave_known-peer_of q x = elim (Option-cases (lookup r rs.rooms)) [
    | inl e ↦ rw (leave_known-none e) (ground (arith, e, text_eq_iff r q))
    | inr (room, e) ↦ elim (Option-cases (lookup p room.peers)) [
      | inl h ↦
          rw (leave_known-stranger room e h)
            (ground (arith, e, h, text_eq_iff r q, text_eq_iff p x))
      | inr (leaver, h) ↦
          ap (λ m. peer_in (lookup q m) x) (leave_known-rooms room leaver e h)
          ∙ peer_in-rooms_without p r q x room rs.rooms e
    ]
  ]

  index-leave_known : (leave_known p r rs).peer_to_room_ids ≡ rs.peer_to_room_ids
  unfolding leave_known drop_peer emit close_stream
  index-leave_known = ground arith

unindexed : Text → RelayServer → RelayServer
unindexed p rs = record rs { peer_to_room_ids = delete p rs.peer_to_room_ids }

pub leave_room-unknown :
    (rs : RelayServer) (p r : Text) → lookup p rs.peer_to_room_ids ≡ none → leave_room rs p r ≡ rs
unfolding leave_room
leave_room-unknown rs p r e = rw (e, leave_room)

leave_room-known :
    (rs : RelayServer) (p r s : Text)
    → lookup p rs.peer_to_room_ids ≡ some s
    → leave_room rs p r ≡ leave_known p r (unindexed p rs)
unfolding leave_room unindexed
leave_room-known rs p r s e = rw (e, leave_room)

-- A call for a peer that the index knows takes it out of the named room; one for a peer that the
-- index does not know changes nothing.
pub peer_of-leave_room :
    (rs : RelayServer) (p r s q x : Text)
    → lookup p rs.peer_to_room_ids ≡ some s
    → peer_of (leave_room rs p r) q x ≡ (if r == q && p == x then none else peer_of rs q x)
unfolding unindexed
peer_of-leave_room rs p r s q x e =
    ap (λ t. peer_of t q x) (leave_room-known rs p r s e)
    ∙ leave_known-peer_of (unindexed p rs) p r q x

pub index-leave_room :
    (rs : RelayServer) (p r x : Text)
    → lookup x (leave_room rs p r).peer_to_room_ids
      ≡ (if p == x then none else lookup x rs.peer_to_room_ids)
unfolding unindexed
index-leave_room rs p r x = elim (Option-cases (lookup p rs.peer_to_room_ids)) [
  | inl e ↦ rw (leave_room-unknown rs p r e) (ground (arith, e, text_eq_iff p x))
  | inr (s, e) ↦
      rw (leave_room-known rs p r s e, index-leave_known (unindexed p rs) p r)
        (lookup-delete x p rs.peer_to_room_ids)
]

-- The rooms after a call of `leave_room`: as they were, or without the peer.
pub rooms-leave_room_cases {ℓ} :
    (P : Map Text Room → Type ℓ) (rs : RelayServer) (p r : Text)
    → P rs.rooms
    → ((room : Room) → lookup r rs.rooms ≡ some room → P (rooms_without p r room rs.rooms))
    → P (leave_room rs p r).rooms
unfolding unindexed
rooms-leave_room_cases P rs p r same gone = elim (Option-cases (lookup p rs.peer_to_room_ids)) [
  | inl e ↦ rw (leave_room-unknown rs p r e) same
  | inr (s, e) ↦ rw (leave_room-known rs p r s e) (elim (Option-cases (lookup r rs.rooms)) [
    | inl f ↦ rw (leave_known-none (unindexed p rs) p r f) same
    | inr (room, f) ↦ elim (Option-cases (lookup p room.peers)) [
      | inl h ↦ rw (leave_known-stranger (unindexed p rs) p r room f h) same
      | inr (leaver, h) ↦ rw (leave_known-rooms (unindexed p rs) p r room leaver f h) (gone room f)
    ]
  ])
]
