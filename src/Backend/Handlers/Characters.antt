-- ===== src/Backend/Handlers/Characters.antt =====
-- internal/backend/command_{044,061,072,073,076,092,108}_*.go: the handlers about characters.
use gladiator.Prelude.{
  ℕ, zero, suc, ◌+◌, not, none, some, List, [], ◌∷◌, length, if◌then◌else◌, eqb,
}
use gladiator.Prelude.Buffers.{make_bytes, copy_at, set}
use gladiator.Packet.Encoder.{
  update_character_inventory, delete_character, get_character_spells, update_character_spells,
  select_character, create_character, update_character_stats,
}
use gladiator.Backend.Session
use gladiator.Backend.Session.{
  Services, Session, Outcome, done, error, panic, found, not_found, failed, call, send_to_game,
  update_character,
}
use gladiator.Backend.Requests.Characters.{
  parse_update_character_inventory, parse_delete_character, parse_get_character_spells,
  parse_update_character_spells, parse_select_character, parse_create_character,
  parse_update_character_stats,
}
use gladiator.Backend.Handlers.Account.{yes, no}

unfoldable pub handle_update_character_inventory : Services → List ℕ → Session → Session × Outcome
handle_update_character_inventory svc req s =
    if eqb s.user_id 0 then (s, error) else elim (parse_update_character_inventory req) [
      | none ↦ (s, done)
      | some d ↦
          let put = Session.put_inventory s.user_id d.character_name d.inventory in
          if not (svc.accepts s.calls put)
          then (call put s, error)
          else send_to_game svc update_character_inventory yes (call put s)
    ]

unfoldable pub handle_delete_character : Services → List ℕ → Session → Session × Outcome
handle_delete_character svc req s =
    if eqb s.user_id 0 then (s, error) else elim (parse_delete_character req) [
      | none ↦ (s, done)
      | some d ↦
          let del = Session.delete_character s.user_id d.character_name in
          let response = copy_at 0 d.character_name (make_bytes (length d.character_name + 1)) in
          if not (svc.accepts s.calls del)
          then (call del s, error)
          else send_to_game svc delete_character response (call del s)
    ]

-- The loop over the spells, with `rounds` to go: a 0 becomes 1.
unfoldable pub fill_spells : ℕ → List ℕ → List ℕ
fill_spells zero spells = spells
fill_spells (suc rounds) [] = []
fill_spells (suc rounds) (b ∷ spells) = (if eqb b 0 then 1 else b) ∷ fill_spells rounds spells

unfoldable pub handle_get_character_spells : Services → List ℕ → Session → Session × Outcome
handle_get_character_spells svc req s =
    if eqb s.user_id 0 then (s, error) else elim (parse_get_character_spells req) [
      | none ↦ (s, done)
      | some d ↦
          let asked = call (Session.get_character s.user_id d.character_name) s in
          elim (svc.character s.calls s.user_id d.character_name) [
            | not_found ↦ (asked, error)
            | failed ↦ (asked, error)
            | found character ↦
                if not (eqb (length character.spells) 43)
                then (asked, done)
                else send_to_game svc get_character_spells (fill_spells 41 character.spells) asked
          ]
    ]

unfoldable pub handle_update_character_spells : Services → List ℕ → Session → Session × Outcome
handle_update_character_spells svc req s =
    if eqb s.user_id 0 then (s, error) else elim (parse_update_character_spells req) [
      | none ↦ (s, done)
      | some d ↦
          let put = Session.put_spells s.user_id d.character_name d.spells in
          if not (svc.accepts s.calls put)
          then (call put s, error)
          else send_to_game svc update_character_spells yes (call put s)
    ]

unfoldable pub handle_select_character : Services → List ℕ → Session → Session × Outcome
handle_select_character svc req s =
    if eqb s.user_id 0 then (s, error) else elim (parse_select_character req) [
      | none ↦ (s, done)
      | some d ↦
          let asked = call (Session.get_character s.user_id d.character_name) s in
          elim (svc.character s.calls s.user_id d.character_name) [
            | not_found ↦ send_to_game svc select_character no asked
            | failed ↦ (asked, error)
            | found character ↦
                let response = copy_at 4 character.stats (set (make_bytes 60) 0 1) in
                elim (update_character character asked) [
                  | none ↦ (asked, panic)
                  | some updated ↦ send_to_game svc select_character response updated
                ]
          ]
    ]

unfoldable pub handle_create_character : Services → List ℕ → Session → Session × Outcome
handle_create_character svc req s =
    if eqb s.user_id 0 then (s, error) else elim (parse_create_character req) [
      | none ↦ (s, done)
      | some d ↦
          let create = Session.create_character s.user_id d.character_name d.info in
          if not (svc.accepts s.calls create)
          then send_to_game svc create_character no (call create s)
          else send_to_game svc create_character yes (call create s)
    ]

unfoldable pub handle_update_character_stats : Services → List ℕ → Session → Session × Outcome
handle_update_character_stats svc req s =
    if eqb s.user_id 0 then (s, error) else elim (parse_update_character_stats req) [
      | none ↦ (s, error)
      | some d ↦
          let put = Session.put_stats s.user_id d.character d.info in
          if not (svc.accepts s.calls put)
          then (call put s, error)
          else send_to_game svc update_character_stats [] (call put s)
    ]
