-- ===== src/Backend/Dispatcher/Sessions.antt =====
-- The handlers that need the session alone keep its calls guarded.
use gladiator.Prelude.{
  text_Eq, ◌∷◌, ◌++◌, codes, ◌==◌, ℕ, ◌≡◌, refl, subst, false, not, List, [], arith, eqb, eqb_iff,
  if_rule, option_rule, branch_rule, IfSome, length,
}
use gladiator.Prelude.Buffers.{make_bytes, copy_at, set}
use gladiator.Packet.Encoder.{
  authorization_handshake, client_host_and_username, Code, client_authentication,
  create_new_account, update_character_inventory, delete_character, get_character_spells,
  update_character_spells, select_character, create_character, update_character_stats,
}
use gladiator.Model.Character.{parse_character_info}
use gladiator.Backend.Session
use gladiator.Backend.Session.{
  Services, Session, Outcome, done, error, panic, RemoteUser, RemoteCharacter, Call,
  connected_over_websocket, authenticate_user, connect_to_lobby, create_user, call, send_to_game,
  set_logon_data, update_character, character_rule,
}
use gladiator.Backend.Requests.Account.{
  parse_authorization_handshake, parse_client_authentication, parse_create_new_account,
}
use gladiator.Backend.Requests.Characters.{
  parse_update_character_inventory, parse_delete_character, parse_get_character_spells,
  parse_update_character_spells, parse_select_character, parse_create_character,
  parse_update_character_stats,
}
use gladiator.Backend.Handlers.Account.{
  handle_client_host_and_username, handle_authorization_handshake, yes, no, bad_length,
  handle_client_authentication, handle_create_new_account,
}
use gladiator.Backend.Handlers.Characters.{
  handle_update_character_inventory, handle_delete_character, handle_get_character_spells,
  handle_update_character_spells, handle_select_character, handle_create_character,
  handle_update_character_stats, fill_spells,
}
use gladiator.Backend.Dispatcher.Guarded.{
  Guarded, Quiet, send_to_game-Quiet, call-Extends, Quiet-Guarded, Extends-Guarded, call-Guarded,
  set_logon_data-Guarded,
}

update_character-Quiet :
    (character : RemoteCharacter) (s : Session) → IfSome (Quiet s) (update_character character s)
unfolding update_character
update_character-Quiet character s =
    option_rule (IfSome (Quiet s)) (parse_character_info character.stats) tt
      (λ info e. (refl, refl, refl))

module _ (svc : Services) (req : List ℕ) (s : Session) (v : Guarded svc s) where
  abbrev P : Session × Outcome → Type 0
  P x = Guarded svc x.0

  sends :
      (code : Code) (payload : List ℕ) (t : Session)
      → Guarded svc t
      → P (send_to_game svc code payload t)
  sends code payload t g =
      Quiet-Guarded svc t (send_to_game svc code payload t).0
        (send_to_game-Quiet svc code payload t) g

  -- A call of a session with a user.
  asks : eqb s.user_id 0 ≡ false → (c : Call) → Guarded svc (call c s)
  asks e c =
      Extends-Guarded svc s (call c s) (λ z. ground (arith, eqb_iff s.user_id 0, e, z))
        (call-Extends c s) v

  pub handle_update_character_inventory-Guarded : P (handle_update_character_inventory svc req s)
  unfolding handle_update_character_inventory
  handle_update_character_inventory-Guarded =
      branch_rule P (eqb s.user_id 0) (λ e. v)
        (λ e. option_rule P (parse_update_character_inventory req) v (λ d f.
          let put = Session.put_inventory s.user_id d.character_name d.inventory in
          if_rule P (not (svc.accepts s.calls put)) (asks e put)
            (sends update_character_inventory yes (call put s) (asks e put))))

  pub handle_delete_character-Guarded : P (handle_delete_character svc req s)
  unfolding handle_delete_character
  handle_delete_character-Guarded =
      branch_rule P (eqb s.user_id 0) (λ e. v)
        (λ e. option_rule P (parse_delete_character req) v (λ d f.
          let del = Session.delete_character s.user_id d.character_name in
          if_rule P (not (svc.accepts s.calls del)) (asks e del)
            (sends delete_character _ (call del s) (asks e del))))

  pub handle_get_character_spells-Guarded : P (handle_get_character_spells svc req s)
  unfolding handle_get_character_spells
  handle_get_character_spells-Guarded =
      branch_rule P (eqb s.user_id 0) (λ e. v)
        (λ e. option_rule P (parse_get_character_spells req) v (λ d f.
          let get = Session.get_character s.user_id d.character_name in
          character_rule P (svc.character s.calls s.user_id d.character_name)
            (λ character. if_rule P (not (eqb (length character.spells) 43)) (asks e get) (
              sends get_character_spells (fill_spells 41 character.spells) (call get s)
                (asks e get)))
            (asks e get) (asks e get)))

  pub handle_update_character_spells-Guarded : P (handle_update_character_spells svc req s)
  unfolding handle_update_character_spells
  handle_update_character_spells-Guarded =
      branch_rule P (eqb s.user_id 0) (λ e. v)
        (λ e. option_rule P (parse_update_character_spells req) v (λ d f.
          let put = Session.put_spells s.user_id d.character_name d.spells in
          if_rule P (not (svc.accepts s.calls put)) (asks e put)
            (sends update_character_spells yes (call put s) (asks e put))))

  pub handle_select_character-Guarded : P (handle_select_character svc req s)
  unfolding handle_select_character
  handle_select_character-Guarded =
      branch_rule P (eqb s.user_id 0) (λ e. v)
        (λ e. option_rule P (parse_select_character req) v (λ d f.
          let get = Session.get_character s.user_id d.character_name in
          character_rule P (svc.character s.calls s.user_id d.character_name)
            (λ character.
              option_rule P (update_character character (call get s)) (asks e get) (λ updated g.
                let quiet : Quiet (call get s) updated =
                  subst (IfSome (Quiet (call get s))) g
                    (update_character-Quiet character (call get s)) in
                sends select_character (copy_at 4 character.stats (set (make_bytes 60) 0 1)) updated
                  (Quiet-Guarded svc (call get s) updated quiet (asks e get))))
            (sends select_character no (call get s) (asks e get)) (asks e get)))

  pub handle_create_character-Guarded : P (handle_create_character svc req s)
  unfolding handle_create_character
  handle_create_character-Guarded =
      branch_rule P (eqb s.user_id 0) (λ e. v)
        (λ e. option_rule P (parse_create_character req) v (λ d f.
          let create = Session.create_character s.user_id d.character_name d.info in
          if_rule P (not (svc.accepts s.calls create))
            (sends create_character no (call create s) (asks e create))
            (sends create_character yes (call create s) (asks e create))))

  pub handle_update_character_stats-Guarded : P (handle_update_character_stats svc req s)
  unfolding handle_update_character_stats
  handle_update_character_stats-Guarded =
      branch_rule P (eqb s.user_id 0) (λ e. v)
        (λ e. option_rule P (parse_update_character_stats req) v (λ d f.
          let put = Session.put_stats s.user_id d.character d.info in
          if_rule P (not (svc.accepts s.calls put)) (asks e put)
            (sends update_character_stats [] (call put s) (asks e put))))

  pub handle_create_new_account-Guarded : P (handle_create_new_account svc req s)
  unfolding handle_create_new_account
  handle_create_new_account-Guarded =
      option_rule P (parse_create_new_account req) (sends create_new_account no s v) (λ d f.
        let create = create_user d.username d.password in
        let asked = call-Guarded svc create s refl v in
        if_rule P (bad_length d.username) (sends create_new_account no s v) (
          if_rule P (bad_length d.password) (sends create_new_account no s v) (
            if_rule P (not (svc.accepts s.calls create))
              (sends create_new_account no (call create s) asked)
              (sends create_new_account yes (call create s) asked))))

  pub handle_client_authentication-Guarded : P (handle_client_authentication svc req s)
  unfolding handle_client_authentication
  handle_client_authentication-Guarded = if_rule P (not (eqb s.user_id 0)) v (
      option_rule P (parse_client_authentication req) v (λ d f.
        let ask = authenticate_user d.username d.password in
        let asked = call-Guarded svc ask s refl v in
        option_rule P (svc.authenticates s.calls d.username d.password)
          (sends client_authentication no (call ask s) asked)
          (λ user g.
            let join = connect_to_lobby user in
            let joined = call-Guarded svc join (call ask s) refl asked in
            branch_rule P (not (svc.accepts (call ask s).calls join))
              (λ e. sends client_authentication no (call join (call ask s)) joined)
              (λ e.
                sends client_authentication yes
                  (set_logon_data user (connected_over_websocket user (call ask s)))
                  (set_logon_data-Guarded svc user (call ask s) (ground (arith, e)) asked)))))

pub handle_client_host_and_username-Guarded :
    (svc : Services) (req : List ℕ) (s : Session)
    → Guarded svc s
    → Guarded svc (handle_client_host_and_username svc req s).0
unfolding handle_client_host_and_username
handle_client_host_and_username-Guarded svc req s v =
    sends svc req s v client_host_and_username yes s v

pub handle_authorization_handshake-Guarded :
    (svc : Services) (req : List ℕ) (s : Session)
    → Guarded svc s
    → Guarded svc (handle_authorization_handshake svc req s).0
unfolding handle_authorization_handshake
handle_authorization_handshake-Guarded svc req s v =
    let K : Session × Outcome → Type 0 = λ x. Guarded svc x.0 in
    let refused = sends svc req s v authorization_handshake no s v in
    option_rule K (parse_authorization_handshake req) v (λ d e.
      if_rule K (not (d.auth_key == codes "68XIPSID")) refused (
        if_rule K (not (eqb d.version_number 3)) refused
          (sends svc req s v authorization_handshake (codes "ENET" ++ (0 ∷ [])) s v)))
