-- ===== src/Backend/Requests/Bytes.antt =====
-- The formats of the requests: what the game client sends is what `Parse` returns.
use gladiator.Prelude.{ℕ, ◌<◌, ◌≡◌, refl, sym, some, List, [], ◌∷◌, ◌++◌, Text, length}
use gladiator.Prelude.Buffers.{NoNull, bytes_32}
use gladiator.Packet.Reads.{
  Reads, Reads-bind, Reads-pure, Reads-string, Reads-bytes, Reads-uint32, parsed-Reads,
}
use gladiator.Model.Character.{CharacterInfo, IsCharacterInfo, to_bytes, parse_character_info}
use gladiator.Model.CharacterBytes.{parse-to_bytes}
use gladiator.Backend.Requests.Account.{parse_client_authentication}
use gladiator.Backend.Requests.Characters.{
  parse_update_character_inventory, parse_create_character, read_info,
}

-- A null-terminated string.
abbrev pub terminated : Text → List ℕ
terminated s = s ++ (0 ∷ [])

-- Packet 41 is a 32-bit number, then the password, then the user name; more data is ignored.
pub parse_client_authentication-print :
    (unknown : ℕ) (password username : Text) (more : List ℕ)
    → unknown < 4294967296
    → NoNull password
    → NoNull username
    → parse_client_authentication
        ((bytes_32 unknown ++ (terminated password ++ (terminated username ++ []))) ++ more)
      ≡ some (record { unknown = unknown; username = username; password = password })
unfolding parse_client_authentication
parse_client_authentication-print unknown password username more h k l = parsed-Reads more (
    Reads-bind _ (Reads-uint32 unknown h) (
      Reads-bind _ (Reads-string password k)
        (Reads-bind _ (Reads-string username l) (Reads-pure _))))

-- Packet 44 is the name of the user and of the character, then the 207 bytes of the inventory; more
-- data is ignored.
pub parse_update_character_inventory-print :
    (username character_name : Text) (inventory more : List ℕ)
    → NoNull username
    → NoNull character_name
    → 207 ≡ length inventory
    → parse_update_character_inventory
        ((terminated username ++ (terminated character_name ++ (inventory ++ []))) ++ more)
      ≡ some
          (record { username = username; character_name = character_name; inventory = inventory })
unfolding parse_update_character_inventory
parse_update_character_inventory-print username character_name inventory more k l h =
    parsed-Reads more (
      Reads-bind _ (Reads-string username k) (
        Reads-bind _ (Reads-string character_name l)
          (Reads-bind _ (Reads-bytes inventory 207 h) (Reads-pure _))))

read_info-to_bytes :
    (c : CharacterInfo)
    → IsCharacterInfo c
    → Reads (read_info (parse_character_info (to_bytes c))) [] c
read_info-to_bytes c h = record {
  reads = λ r t cursor e. rw (parse-to_bytes c h) ((Reads-pure c).reads r t cursor e);
}

length-to_bytes : (c : CharacterInfo) → length (to_bytes c) ≡ 56
unfolding to_bytes
length-to_bytes c = refl

-- Packet 92 is the 56 bytes of a character, then the names of the user and of the new character. The
-- handler gets the bytes as they were sent, and the character that they were written from.
pub parse_create_character-print :
    (c : CharacterInfo) (username character_name : Text) (more : List ℕ)
    → IsCharacterInfo c
    → NoNull username
    → NoNull character_name
    → parse_create_character
        ((to_bytes c ++ ([] ++ (terminated username ++ (terminated character_name ++ [])))) ++ more)
      ≡ some (record {
        info = to_bytes c;
        parsed_info = c;
        username = username;
        character_name = character_name;
      })
unfolding parse_create_character
parse_create_character-print c username character_name more h k l = parsed-Reads more (
    Reads-bind _ (Reads-bytes (to_bytes c) 56 (sym (length-to_bytes c))) (
      Reads-bind _ (read_info-to_bytes c h) (
        Reads-bind _ (Reads-string username k)
          (Reads-bind _ (Reads-string character_name l) (Reads-pure _)))))
