-- ===== src/Backend/Handlers/Replies.antt =====
-- What the handlers answer: the handshake, the spells and the selected character.
use gladiator.Prelude.{
  ℕ, zero, suc, ◌<◌, ◌≡◌, ◌≢◌, refl, ◌∙◌, ◌⊎◌, inl, inr, false, ◌&&◌, some, List, [], ◌∷◌, ◌++◌,
  codes, length, get_or, arith, if◌then◌else◌, eqb, eqb_iff, ltb, ◌==◌, text_Eq, text_eq_iff, ap,
  Bool-cases,
}
use gladiator.Prelude.Buffers.{make_bytes, copy_at, set}
use gladiator.Packet.Encoder.{authorization_handshake, select_character, get_character_spells}
use gladiator.Model.Character.{CharacterInfo, IsCharacterInfo, to_bytes}
use gladiator.Model.CharacterBytes.{parse-to_bytes}
use gladiator.Backend.Session.{
  RemoteCharacter, Services, Session, error, found, get_character, call, send_to_game,
  update_character,
}
use gladiator.Backend.Requests.Account.{
  AuthorizationHandshakeRequestData, parse_authorization_handshake,
}
use gladiator.Backend.Requests.Characters.{
  SelectCharacterRequestData, GetCharacterSpellsRequestData, parse_select_character,
  parse_get_character_spells,
}
use gladiator.Backend.Handlers.Account.{no, handle_authorization_handshake}
use gladiator.Backend.Handlers.Characters.{
  fill_spells, handle_get_character_spells, handle_select_character,
}

fill_spells_lem :
    (n i : ℕ) (spells : List ℕ)
    → i < length spells
    → get_or (fill_spells n spells) i 0
      ≡ (if ltb i n && eqb (get_or spells i 0) 0 then 1 else get_or spells i 0)
unfolding fill_spells
fill_spells_lem zero i spells h = ground arith
fill_spells_lem (suc n) i [] h = absurd (omega (arith, h))
fill_spells_lem (suc n) zero (b ∷ spells) h = ground arith
fill_spells_lem (suc n) (suc i) (b ∷ spells) h =
    fill_spells_lem n i spells (omega (arith, h)) ∙ ground arith

length-fill_spells : (n : ℕ) (spells : List ℕ) → length (fill_spells n spells) ≡ length spells
unfolding fill_spells
length-fill_spells zero spells = refl
length-fill_spells (suc n) [] = refl
length-fill_spells (suc n) (b ∷ spells) = ap suc (length-fill_spells n spells)

-- A logged-in user who asks for the spells of a character with 43 of them is sent 43 spells: the first
-- 41 with a 1 in place of a 0, and the last two as they are.
pub handle_get_character_spells_lem :
    (svc : Services) (req : List ℕ) (s : Session) (d : GetCharacterSpellsRequestData)
    (character : RemoteCharacter)
    → s.user_id ≢ 0
    → parse_get_character_spells req ≡ some d
    → svc.character s.calls s.user_id d.character_name ≡ found character
    → length character.spells ≡ 43
    → (reply : List ℕ) × (handle_get_character_spells svc req s
        ≡ send_to_game svc get_character_spells reply
            (call (get_character s.user_id d.character_name) s))
      × (length reply ≡ 43)
      × ((i : ℕ)
          → i < 43
          → get_or reply i 0 ≡ (
              if ltb i 41 && eqb (get_or character.spells i 0) 0
              then 1
              else get_or character.spells i 0))
unfolding handle_get_character_spells
handle_get_character_spells_lem svc req s d character n e f k =
    let logged_in : eqb s.user_id 0 ≡ false = ground (arith, n, eqb_iff s.user_id 0) in
    (
      fill_spells 41 character.spells,
      rw (logged_in, e, f, k, handle_get_character_spells) refl,
      length-fill_spells 41 character.spells ∙ k,
      λ i h. fill_spells_lem 41 i character.spells (omega (arith, h, k)),
    )

padded :
    (c : CharacterInfo)
    → copy_at 4 (to_bytes c) (set (make_bytes 60) 0 1) ≡ 1 ∷ 0 ∷ 0 ∷ 0 ∷ to_bytes c
unfolding to_bytes
padded c = refl

-- A logged-in user who selects a character of the service, whose stats are the bytes of a character, is
-- sent a 1 in four bytes and those bytes, and the session has the character and its class.
pub handle_select_character_lem :
    (svc : Services) (req : List ℕ) (s : Session) (d : SelectCharacterRequestData)
    (character : RemoteCharacter) (c : CharacterInfo)
    → s.user_id ≢ 0
    → parse_select_character req ≡ some d
    → svc.character s.calls s.user_id d.character_name ≡ found character
    → character.stats ≡ to_bytes c
    → IsCharacterInfo c
    → handle_select_character svc req s
      ≡ send_to_game svc select_character
          (1 ∷ 0 ∷ 0 ∷ 0 ∷ to_bytes c)
          (record (call (get_character s.user_id d.character_name) s) {
            character_id = character.character_id;
            class_type = c.class_type;
          })
unfolding handle_select_character update_character
handle_select_character_lem svc req s d character c n e f k h =
    let logged_in : eqb s.user_id 0 ≡ false = ground (arith, n, eqb_iff s.user_id 0) in
    rw (logged_in, e, f, k, parse-to_bytes c h, handle_select_character, update_character)
      (ap
        (λ reply.
          send_to_game svc select_character reply
            (record (call (get_character s.user_id d.character_name) s) {
              character_id = character.character_id;
              class_type = c.class_type;
            }))
        (ap (λ stats. copy_at 4 stats (set (make_bytes 60) 0 1)) k ∙ padded c))

-- A well-formed handshake with the key "68XIPSID" and the version 3 is answered with "ENET". One with
-- another key or version ends with an error, whether or not the refusal could be sent.
pub handle_authorization_handshake_lem :
    (svc : Services) (req : List ℕ) (s : Session) (d : AuthorizationHandshakeRequestData)
    → parse_authorization_handshake req ≡ some d
    → ((d.auth_key ≡ codes "68XIPSID")
        × (d.version_number ≡ 3)
        × (handle_authorization_handshake svc req s
            ≡ send_to_game svc authorization_handshake (codes "ENET" ++ (0 ∷ [])) s))
      ⊎ ((d.auth_key ≡ codes "68XIPSID" → d.version_number ≡ 3 → ⊥)
          × (handle_authorization_handshake svc req s
              ≡ ((send_to_game svc authorization_handshake no s).0, error)))
unfolding handle_authorization_handshake
handle_authorization_handshake_lem svc req s d e =
    elim (Bool-cases (d.auth_key == codes "68XIPSID")) [
      | inr k ↦ inr (
        λ f g. absurd (ground (arith, k, text_eq_iff d.auth_key (codes "68XIPSID"), f)),
        rw (e, k, handle_authorization_handshake) refl,
      )
      | inl k ↦ elim (Bool-cases (eqb d.version_number 3)) [
        | inr v ↦ inr (
          λ f g. absurd (ground (arith, v, eqb_iff d.version_number 3, g)),
          rw (e, k, v, handle_authorization_handshake) refl,
        )
        | inl v ↦ inl (
          ground (arith, k, text_eq_iff d.auth_key (codes "68XIPSID")),
          ground (arith, v, eqb_iff d.version_number 3),
          rw (e, k, v, handle_authorization_handshake) refl,
        )
      ]
    ]
