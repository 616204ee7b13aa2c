-- ===== src/Backend/LobbyEvents/Presence.antt =====
-- Who is in the lobby: the list of users against a set of identifiers.
use gladiator.Prelude.{
  ℕ, ◌≡◌, refl, ap, ◌∙◌, Bool, false, ◌||◌, not, ◌&&◌, Option, none, some, List, [], ◌∷◌, ◌++◌,
  length, arith, if◌then◌else◌, eqb, eqb_iff, Bool-cases, inl, inr,
}
use gladiator.Prelude.Buffers.{u32}
use gladiator.Packet.Encoder.{receive_message}
use gladiator.Wire.{Codec, Player, ChatMessage, parse_event_type}
use gladiator.Wire.Event
use gladiator.Backend.Session.{Services, Session, send_to_game}
use gladiator.Backend.Messages.{
  append_character_to_lobby, new_lobby_message, remove_character_from_lobby,
}
use gladiator.Backend.LobbyEvents.{
  Lobby, delete_user, update_lobby_users, delete_lobby_user, handle_chat, handle_lobby_users,
  handle_join_lobby, handle_leave_lobby, content, handle_event,
}

-- A set of users, and what an event says about it.
abbrev pub Present : Type 0
Present = ℕ → Bool

pub data Change : Type 0 where
  replaced : List Player → Change
  joined : ℕ → Change
  left : ℕ → Change
  unchanged : Change

abbrev pub is_present : List Player → Present
is_present [] id = false
is_present (player ∷ users) id = eqb player.user_id id || is_present users id

-- The client itself is not counted when it joins.
unfoldable pub apply_change : ℕ → Change → Present → Present
apply_change self (replaced users) present = is_present users
apply_change self (joined id) present = if eqb id self then present else λ k. eqb id k || present k
apply_change self (left id) present = λ k. not (eqb id k) && present k
apply_change self unchanged present = present

abbrev pub replacement : Option (List Player) → Change
replacement none = unchanged
replacement (some users) = replaced users

abbrev pub arrival : Option Player → Change
arrival none = unchanged
arrival (some player) = joined player.user_id

abbrev pub departure : Option Player → Change
departure none = unchanged
departure (some player) = left player.user_id

abbrev pub change_of : Codec → List ℕ → Change
change_of codec payload =
    let event_type = parse_event_type payload in
    if eqb event_type Event.lobby_users
    then replacement (content codec.unmarshal_players payload)
    else if eqb event_type Event.join_lobby
    then arrival (content codec.unmarshal_player payload)
    else if eqb event_type Event.leave_lobby
    then departure (content codec.unmarshal_player payload)
    else unchanged

is_present-append :
    (users : List Player) (player : Player) (id : ℕ)
    → is_present (users ++ (player ∷ [])) id ≡ (eqb player.user_id id || is_present users id)
is_present-append [] player id = ground arith
is_present-append (p ∷ users) player id = ground (arith, is_present-append users player id)

is_present-delete_user :
    (id k : ℕ) (users : List Player)
    → is_present (delete_user id users) k ≡ (not (eqb id k) && is_present users k)
unfolding delete_user
is_present-delete_user id k [] = ground arith
is_present-delete_user id k (p ∷ users) = ground (
  arith,
  is_present-delete_user id k users,
  eqb_iff id p.user_id,
  eqb_iff p.user_id k,
  eqb_iff id k,
)

-- The user and the set behind one event.
abbrev Follows : Lobby → Change → Lobby → Type 0
Follows (s, users) c (s', users') =
    (s'.user_id ≡ s.user_id)
    × ((k : ℕ) → is_present users' k ≡ apply_change s.user_id c (is_present users) k)

tell_user_id :
    (svc : Services) (payload : List ℕ) (s : Session)
    → (send_to_game svc receive_message payload s).0.user_id ≡ s.user_id
unfolding send_to_game
tell_user_id svc payload s = ground arith

module _ (svc : Services) (codec : Codec) (s : Session) (users : List Player) where
  handle_lobby_users-Follows :
      (o : Option (List Player))
      → Follows (s, users) (replacement o) (handle_lobby_users o (s, users))
  unfolding update_lobby_users apply_change
  handle_lobby_users-Follows none = (refl, λ k. refl)
  handle_lobby_users-Follows (some u) = (refl, λ k. refl)

  handle_chat-Follows :
      (o : Option ChatMessage) → Follows (s, users) unchanged (handle_chat svc o (s, users))
  unfolding apply_change
  handle_chat-Follows none = (refl, λ k. refl)
  handle_chat-Follows (some msg) =
      (tell_user_id svc (new_lobby_message msg.user msg.text) s, λ k. refl)

  handle_leave_lobby-Follows :
      (o : Option Player) → Follows (s, users) (departure o) (handle_leave_lobby svc o (s, users))
  unfolding apply_change delete_lobby_user
  handle_leave_lobby-Follows none = (refl, λ k. refl)
  handle_leave_lobby-Follows (some p) = (
    tell_user_id svc (remove_character_from_lobby p.username) s,
    λ k. is_present-delete_user p.user_id k users,
  )

  handle_join_lobby-Follows :
      (o : Option Player) → Follows (s, users) (arrival o) (handle_join_lobby svc o (s, users))
  unfolding apply_change update_lobby_users
  handle_join_lobby-Follows none = (refl, λ k. refl)
  handle_join_lobby-Follows (some p) = elim (Bool-cases (eqb p.user_id s.user_id)) [
    | inl e ↦ rw e (refl, λ k. refl)
    | inr e ↦ rw e (
      tell_user_id svc
          (append_character_to_lobby p.username p.class_type (u32 (length (users ++ (p ∷ []))))) s,
      λ k. is_present-append users p k,
    )
  ]

  pub handle_event-Follows :
      (payload : List ℕ)
      → Follows (s, users) (change_of codec payload) (handle_event svc codec payload (s, users))
  unfolding handle_event
  handle_event-Follows payload =
      let t = parse_event_type payload in
      elim (Bool-cases (eqb t Event.chat)) [
        | inl e ↦
            let is : parse_event_type payload ≡ 7 = (eqb_iff t 7).0 e in
            rw (is, handle_event) (handle_chat-Follows (content codec.unmarshal_chat payload))
        | inr e ↦ elim (Bool-cases (eqb t Event.lobby_users)) [
          | inl f ↦
              let is : parse_event_type payload ≡ 3 = (eqb_iff t 3).0 f in
              rw (is, handle_event)
                (handle_lobby_users-Follows (content codec.unmarshal_players payload))
          | inr f ↦ elim (Bool-cases (eqb t Event.join_lobby)) [
            | inl g ↦
                let is : parse_event_type payload ≡ 4 = (eqb_iff t 4).0 g in
                rw (is, handle_event)
                  (handle_join_lobby-Follows (content codec.unmarshal_player payload))
            | inr g ↦ elim (Bool-cases (eqb t Event.leave_lobby)) [
              | inl h ↦
                  let is : parse_event_type payload ≡ 6 = (eqb_iff t 6).0 h in
                  rw (is, handle_event)
                    (handle_leave_lobby-Follows (content codec.unmarshal_player payload))
              | inr h ↦ rw (e, f, g, h, handle_event) (handle_chat-Follows none)
            ]
          ]
        ]
      ]

-- The events of the payloads, one after another.
unfoldable pub handle_events : Services → Codec → List (List ℕ) → Lobby → Lobby
unfolding handle_event
handle_events svc codec [] l = l
handle_events svc codec (payload ∷ payloads) l =
    handle_events svc codec payloads (handle_event svc codec payload l)

-- The same over the sets.
unfoldable pub apply_changes : ℕ → Codec → List (List ℕ) → Present → Present
unfolding apply_change
apply_changes self codec [] present = present
apply_changes self codec (payload ∷ payloads) present =
    apply_changes self codec payloads (apply_change self (change_of codec payload) present)

-- Equal sets stay equal.
apply_change-same :
    (self : ℕ) (c : Change) (f g : Present)
    → ((k : ℕ) → f k ≡ g k)
    → (k : ℕ) → apply_change self c f k ≡ apply_change self c g k
unfolding apply_change
apply_change-same self (replaced users) f g h k = refl
apply_change-same self (joined id) f g h k = ground (arith, h k)
apply_change-same self (left id) f g h k = ground (arith, h k)
apply_change-same self unchanged f g h k = h k

pub apply_changes-same :
    (self : ℕ) (codec : Codec) (payloads : List (List ℕ)) (f g : Present)
    → ((k : ℕ) → f k ≡ g k)
    → (k : ℕ) → apply_changes self codec payloads f k ≡ apply_changes self codec payloads g k
unfolding apply_changes
apply_changes-same self codec [] f g h k = h k
apply_changes-same self codec (payload ∷ payloads) f g h k =
    apply_changes-same self codec payloads _ _
      (apply_change-same self (change_of codec payload) f g h) k

-- Whatever payloads the observer reads, the list of the lobby's users stands for the set that the events
-- describe: the users that the lobby listed, with those that joined since, except the client itself, and
-- without those that left since. The client's own identifier does not change.
pub handle_events-refines :
    (svc : Services) (codec : Codec) (payloads : List (List ℕ)) (s : Session) (users : List Player)
    → let (s', users') = handle_events svc codec payloads (s, users) in
      (s'.user_id ≡ s.user_id)
      × ((k : ℕ)
          → is_present users' k ≡ apply_changes s.user_id codec payloads (is_present users) k)
unfolding handle_events apply_changes
handle_events-refines svc codec [] s users = (refl, λ k. refl)
handle_events-refines svc codec (payload ∷ payloads) s users =
    let (s', users') = handle_event svc codec payload (s, users) in
    let (same, sets) = handle_event-Follows svc codec s users payload in
    let (later, rest) = handle_events-refines svc codec payloads s' users' in
    (
      later ∙ same,
      λ k.
          rest k
          ∙ ap (λ id. apply_changes id codec payloads (is_present users') k) same
          ∙ apply_changes-same s.user_id codec payloads _ _ sets k,
    )
