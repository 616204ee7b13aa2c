-- ===== src/Backend/Direct/Members.antt =====
-- Who is in the room of a proxy for the local network.
use gladiator.Prelude.{
  ℕ, ◌≡◌, refl, ap, ◌∙◌, ◌||◌, Option, none, some, List, [], ◌∷◌, Text, if◌then◌else◌, eqb, nat_eq,
  arith,
}
use mathlib.Core.Option
use gladiator.Prelude.Maps.{lookup, lookup-insert, lookup-delete}
use gladiator.Wire.{Codec, Player, parse_event_type}
use gladiator.Wire.Event
use gladiator.Backend.Session.{Session}
use gladiator.Backend.LobbyEvents.{content}
use gladiator.Backend.Proxy.{GameData, find_host_user, to_wire_players}
use gladiator.Backend.Direct.{
  GameRoom, new_game_room, get_player, set_player, delete_player, set_players, Lan, LanWorld,
  select_game, handle, joining, leaving,
}

-- The players by their identifiers, and what an event says about them.
abbrev pub Members : Type 0
Members = ℕ → Option Player

pub data Change : Type 0 where
  joined : Player → Change
  left : ℕ → Change
  unchanged : Change

abbrev pub apply_change : Change → Members → Members
apply_change (joined player) f = λ k. if eqb player.user_id k then some player else f k
apply_change (left id) f = λ k. if eqb id k then none else f k
apply_change unchanged f = f

abbrev pub arrival : Option Player → Change
arrival none = unchanged
arrival (some player) = joined player

abbrev pub departure : Option Player → Change
departure none = unchanged
departure (some player) = left player.user_id

abbrev pub change_of : Codec → List ℕ → Change
change_of codec payload =
    let event_type = parse_event_type payload in
    let subject = content codec.unmarshal_player payload in
    if eqb event_type Event.join_room
    then arrival subject
    else if eqb event_type Event.leave_room || eqb event_type Event.leave_lobby
    then departure subject
    else unchanged

-- The players that are listed, the later before the earlier, and then the others.
unfoldable pub with_listed : List Player → Members → Members
with_listed [] f = f
with_listed (player ∷ players) f = with_listed players (apply_change (joined player) f)

unfoldable pub apply_events : Codec → List (List ℕ) → Members → Members
apply_events codec [] f = f
apply_events codec (payload ∷ payloads) f =
    apply_events codec payloads (apply_change (change_of codec payload) f)

-- The events of a room, one after the other; `Handle` never fails.
unfoldable pub handle_all : LanWorld → List (List ℕ) → Session × Lan → Session × Lan
unfolding handle
handle_all w [] x = x
handle_all w (payload ∷ payloads) x = handle_all w payloads (handle w payload x).0

abbrev pub members : GameRoom → Members
members g = λ k. get_player k g

-- The same change to the room itself.
pub change_room : Change → GameRoom → GameRoom
change_room (joined player) g = set_player player g
change_room (left id) g = delete_player id g
change_room unchanged g = g

pub members-change_room :
    (c : Change) (g : GameRoom) (k : ℕ) → members (change_room c g) k ≡ apply_change c (members g) k
unfolding change_room get_player set_player delete_player
members-change_room (joined player) g k = lookup-insert k player.user_id player g.players
members-change_room (left id) g k = lookup-delete k id g.players
members-change_room unchanged g k = refl

apply_change-same :
    (c : Change) (f g : Members)
    → ((k : ℕ) → f k ≡ g k)
    → (k : ℕ) → apply_change c f k ≡ apply_change c g k
apply_change-same (joined player) f g h k = ground (arith, h k)
apply_change-same (left id) f g h k = ground (arith, h k)
apply_change-same unchanged f g h k = h k

with_listed-same :
    (players : List Player) (f g : Members)
    → ((k : ℕ) → f k ≡ g k)
    → (k : ℕ) → with_listed players f k ≡ with_listed players g k
unfolding with_listed
with_listed-same [] f g h k = h k
with_listed-same (player ∷ players) f g h k =
    with_listed-same players _ _ (apply_change-same (joined player) f g h) k

pub apply_events-same :
    (codec : Codec) (payloads : List (List ℕ)) (f g : Members)
    → ((k : ℕ) → f k ≡ g k)
    → (k : ℕ) → apply_events codec payloads f k ≡ apply_events codec payloads g k
unfolding apply_events
apply_events-same codec [] f g h k = h k
apply_events-same codec (payload ∷ payloads) f g h k =
    apply_events-same codec payloads _ _ (apply_change-same (change_of codec payload) f g h) k

change_room-host : (c : Change) (g : GameRoom) → (change_room c g).host ≡ g.host
unfolding change_room set_player delete_player
change_room-host (joined player) g = refl
change_room-host (left id) g = refl
change_room-host unchanged g = refl

members-set_player :
    (player : Player) (g : GameRoom) (k : ℕ)
    → members (set_player player g) k ≡ apply_change (joined player) (members g) k
unfolding get_player set_player
members-set_player player g k = lookup-insert k player.user_id player g.players

members-set_players :
    (players : List Player) (g : GameRoom) (k : ℕ)
    → members (set_players players g) k ≡ with_listed players (members g) k
unfolding set_players with_listed
members-set_players [] g k = refl
members-set_players (player ∷ players) g k =
    members-set_players players (set_player player g) k
    ∙ with_listed-same players _ _ (members-set_player player g) k

set_players-host : (players : List Player) (g : GameRoom) → (set_players players g).host ≡ g.host
unfolding set_players set_player
set_players-host [] g = refl
set_players-host (player ∷ players) g = set_players-host players (set_player player g)

members-new_game_room :
    (name : Text) (host : Player) (k : ℕ)
    → members (new_game_room name host) k ≡ apply_change (joined host) (λ j. none) k
unfolding get_player new_game_room lookup
members-new_game_room name host k = refl

module _ (w : LanWorld) where
  joining-change_room :
      (o : Option Player) (p : Lan) (g : GameRoom)
      → p.game_room ≡ some g
      → (joining w o p).game_room ≡ some (change_room (arrival o) g)
  unfolding change_room
  joining-change_room none p g e = e
  joining-change_room (some player) p g e = ap (Option.map (set_player player)) e

  leaving-change_room :
      (o : Option Player) (p : Lan) (g : GameRoom)
      → p.game_room ≡ some g
      → (leaving w o p).game_room ≡ some (change_room (departure o) g)
  unfolding change_room
  leaving-change_room none p g e = e
  leaving-change_room (some player) p g e = ap (Option.map (delete_player player.user_id)) e

  pub handle-change_room :
      (payload : List ℕ) (s : Session) (p : Lan) (g : GameRoom)
      → p.game_room ≡ some g
      → (handle w payload (s, p)).0.1.game_room ≡ some (change_room (change_of w.codec payload) g)
  unfolding handle change_room
  handle-change_room payload s p g e =
      let t = parse_event_type payload in
      let o = content w.codec.unmarshal_player payload in
      ground (arith, e, joining-change_room o p g e, leaving-change_room o p g e)

  -- The room behind a number of events.
  handle_all-members :
      (payloads : List (List ℕ)) (s : Session) (p : Lan) (g : GameRoom)
      → p.game_room ≡ some g
      → (room : GameRoom) × ((handle_all w payloads (s, p)).1.game_room ≡ some room)
        × (room.host ≡ g.host)
        × ((k : ℕ) → members room k ≡ apply_events w.codec payloads (members g) k)
  unfolding handle_all apply_events
  handle_all-members [] s p g e = (g, e, refl, λ k. refl)
  handle_all-members (payload ∷ payloads) s p g e =
      let c = change_of w.codec payload in
      let x = handle w payload (s, p) in
      let (room, is, host, rest) =
        handle_all-members payloads x.0.0 x.0.1 (change_room c g)
          (handle-change_room payload s p g e) in
      (
        room,
        is,
        host ∙ change_room-host c g,
        λ k. rest k ∙ apply_events-same w.codec payloads _ _ (members-change_room c g) k,
      )

  -- When the game's host is among its players, `SelectGame` opens a room, and whatever events follow, the room
  -- keeps that host, and its players are those that the console listed, with those that joined since, and without
  -- those that left since.
  pub select_game-refines :
      (d : GameData) (host : Player) (payloads : List (List ℕ)) (s : Session) (p : Lan)
      → find_host_user d ≡ some host
      → (room : GameRoom) × ((handle_all w payloads (select_game w d (s, p)).0).1.game_room
          ≡ some room)
        × (room.host ≡ host)
        × ((k : ℕ)
            → get_player k room
              ≡ apply_events w.codec payloads
                  (with_listed (to_wire_players d.players) (apply_change (joined host) (λ j. none)))
                  k)
  unfolding select_game new_game_room
  select_game-refines d host payloads s p found =
      let listed = to_wire_players d.players in
      let start = new_game_room d.game.game_id host in
      let g = set_players listed start in
      let x = (select_game w d (s, p)).0 in
      let opened : x.1.game_room ≡ some g = rw (found, select_game) in
      let (room, is, kept, rest) = handle_all-members payloads x.0 x.1 g opened in
      (
        room,
        is,
        kept ∙ set_players-host listed start,
        λ k.
            rest k
            ∙ apply_events-same w.codec payloads _ _
                (λ j.
                  members-set_players listed start j
                  ∙ with_listed-same listed _ _ (members-new_game_room d.game.game_id host) j)
                k,
      )
