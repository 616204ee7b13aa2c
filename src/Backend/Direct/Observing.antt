-- ===== src/Backend/Direct/Observing.antt =====
-- The observer of a client on the local network: the lobby's handler and the proxy's on the same payloads.
use gladiator.Prelude.{
  ℕ, ◌≡◌, refl, ap, ◌∙◌, sym, subst, ◌||◌, Option, none, some, List, [], ◌∷◌, eqb, if_rule,
  option_rule,
}
use gladiator.Packet.Encoder
use gladiator.Packet.Encoder.{new_host_switch}
use gladiator.Wire.{Player, parse_event_type}
use gladiator.Wire.Event
use gladiator.Backend.Session.{Session, Outcome, done}
use gladiator.Backend.LobbyEvents.{content, handle_event}
use gladiator.Backend.LobbyEvents.Presence.{
  is_present, apply_changes, apply_changes-same, handle_event-Follows,
}
use gladiator.Backend.Client.{Client, Remote}
use gladiator.Backend.Dispatcher.{observe}
use gladiator.Backend.Dispatcher.Guarded.{send_to_game-Quiet}
use gladiator.Backend.Direct.{true, GameRoom, Lan, LanWorld, lan, get_player, handle, migrating}
use gladiator.Backend.Direct.Members.{
  members, change_of, change_room, apply_events, apply_events-same, members-change_room,
  handle-change_room,
}

module _ (w : LanWorld) where
  migrating-user_id : (o : Option Player) (s : Session) → (migrating w o s).user_id ≡ s.user_id
  migrating-user_id none s = refl
  migrating-user_id (some player) s =
      option_rule (λ (t : Session). t.user_id ≡ s.user_id) (w.parse_ip player.ip_address) refl
        (λ ip e.
          (send_to_game-Quiet w.services Encoder.host_migration (new_host_switch true ip) s).0)

  -- The proxy never fails, and does not change the user.
  handle-done :
      (payload : List ℕ) (s : Session) (p : Lan)
      → ((handle w payload (s, p)).1 ≡ done) × ((handle w payload (s, p)).0.0.user_id ≡ s.user_id)
  unfolding handle
  handle-done payload s p =
      let K : (Session × Lan) × Outcome → Type 0 =
        λ x. (x.1 ≡ done) × (x.0.0.user_id ≡ s.user_id) in
      let t = parse_event_type payload in
      if_rule K (eqb t Event.join_room) (refl, refl)
        (if_rule K (eqb t Event.leave_room || eqb t Event.leave_lobby) (refl, refl)
          (if_rule K (eqb t Event.host_migration)
            (refl, migrating-user_id (content w.codec.unmarshal_player payload) s) (refl, refl)))

  -- What the observer leaves behind payloads, from a user, a list of the lobby's users and a room on.
  abbrev pub Observed :
      Remote → ℕ → List (List ℕ) → List Player → GameRoom → Client Lan × Outcome → Type 0
  Observed r id payloads users g (c, ended) =
      (ended ≡ done)
      × ((k : ℕ)
          → is_present c.lobby_users k ≡ apply_changes id r.codec payloads (is_present users) k)
      × (room : GameRoom) × (c.proxy.game_room ≡ some room)
      × ((k : ℕ) → get_player k room ≡ apply_events w.codec payloads (members g) k)

  -- A client in a room of the local network observes all payloads that arrive, without an error. Behind them its
  -- list of the lobby's users stands for the set that the events describe, and its room has the players that the
  -- events describe.
  pub observe-refines :
      (r : Remote) (payloads : List (List ℕ)) (c : Client Lan) (g : GameRoom)
      → c.proxy.game_room ≡ some g
      → Observed r c.session.user_id payloads c.lobby_users g (observe r (lan w) payloads c)
  unfolding observe apply_changes apply_events
  observe-refines r [] c g e = (refl, λ k. refl, g, e, λ k. refl)
  observe-refines r (payload ∷ payloads) c g e =
      let l = handle_event r.services r.codec payload (c.session, c.lobby_users) in
      let (same, sets) = handle_event-Follows r.services r.codec c.session c.lobby_users payload in
      let x = handle w payload (l.0, c.proxy) in
      let (ended, user) = handle-done payload l.0 c.proxy in
      let c' = record c { session = x.0.0; proxy = x.0.1; lobby_users = l.1 } in
      let g' = change_room (change_of w.codec payload) g in
      let (finished, users, room, is, players) =
        observe-refines r payloads c' g' (handle-change_room w payload l.0 c.proxy g e) in
      let goal = Observed r c.session.user_id (payload ∷ payloads) c.lobby_users g in
      let opened : observe r (lan w) (payload ∷ payloads) c ≡ observe r (lan w) payloads c' =
        rw (ended, observe) in
      subst goal (sym opened) (
        finished,
        λ k.
            users k
            ∙ ap (λ id. apply_changes id r.codec payloads (is_present l.1) k) (user ∙ same)
            ∙ apply_changes-same c.session.user_id r.codec payloads _ _ sets k,
        room,
        is,
        λ k.
            players k
            ∙ apply_events-same w.codec payloads _ _
                (members-change_room (change_of w.codec payload) g) k,
      )
