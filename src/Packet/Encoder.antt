-- ===== src/Packet/Encoder.antt =====
-- internal/backend/packet/{codes,encoder,common}.go.
use gladiator.Prelude.{
  ℕ, ◌+◌, suc, ◌≡◌, ap, ◌∙◌, Bool, List, [], ◌∷◌, ◌++◌, length, arith, if◌then◌else◌, ◌<◌,
}
use gladiator.Prelude.Buffers.{
  u8, u16, make_bytes, set, copy_at, bytes_16, copy_at-exact, uint16_at,
}

pub data Code : Type 0 where
  authorization_handshake list_games list_channels selected_channel send_lobby_message : Code
  receive_message ping_clock_time create_game client_host_and_username join_game : Code
  client_authentication create_new_account update_character_inventory get_characters : Code
  delete_character get_character_inventory select_game show_ranking host_migration : Code
  get_character_spells update_character_spells select_character create_character : Code
  update_character_stats : Code

unfoldable pub code_byte : Code → ℕ
code_byte authorization_handshake = 6
code_byte list_games = 9
code_byte list_channels = 11
code_byte selected_channel = 12
code_byte send_lobby_message = 14
code_byte receive_message = 15
code_byte ping_clock_time = 21
code_byte create_game = 28
code_byte client_host_and_username = 30
code_byte join_game = 34
code_byte client_authentication = 41
code_byte create_new_account = 42
code_byte update_character_inventory = 44
code_byte get_characters = 60
code_byte delete_character = 61
code_byte get_character_inventory = 68
code_byte select_game = 69
code_byte show_ranking = 70
code_byte host_migration = 71
code_byte get_character_spells = 72
code_byte update_character_spells = 73
code_byte select_character = 76
code_byte create_character = 92
code_byte update_character_stats = 108

-- The packet type is any byte; the length wraps as the conversion to uint16 does.
unfoldable pub encode_packet : ℕ → List ℕ → List ℕ
encode_packet packet_type data_ =
    let size = length data_ + 4 in
    let payload = make_bytes size in
    let payload = set payload 0 255 in
    let payload = set payload 1 (u8 packet_type) in
    let payload = copy_at 2 (bytes_16 (u16 size)) payload in copy_at 4 data_ payload

-- `ip` is what `ip.To4()` returned.
unfoldable pub new_host_switch : Bool → List ℕ → List ℕ
new_host_switch external ip =
    let payload = make_bytes 8 in
    let payload =
      if external
      then copy_at 0 (1 ∷ 0 ∷ 0 ∷ 0 ∷ []) payload
      else copy_at 0 (0 ∷ 0 ∷ 0 ∷ 0 ∷ []) payload in
    copy_at 4 ip payload

-- The frame is a four-byte header and then the data.
pub encode_packet_lem :
    (t : ℕ) (d : List ℕ) → encode_packet t d ≡ 255 ∷ u8 t ∷ (bytes_16 (u16 (length d + 4)) ++ d)
unfolding encode_packet
encode_packet_lem t d =
    ap (λ b. copy_at 4 d (copy_at 2 size (set (set b 0 255) 1 (u8 t))))
      {x = make_bytes (length d + 4)} {y = 0 ∷ 0 ∷ 0 ∷ 0 ∷ make_bytes (length d)}
      (ap make_bytes {y = suc (suc (suc (suc (length d))))} (omega arith))
    ∙ ap (λ b. 255 ∷ u8 t ∷ (size ++ b)) (copy_at-exact d)
  where
    size : List ℕ
    size = bytes_16 (u16 (length d + 4))

-- The receiver reads back the length that the sender wrote.
pub size_of_packet :
    (t : ℕ) (d rest : List ℕ)
    → length d + 4 < 65536
    → uint16_at (encode_packet t d ++ rest) 2 ≡ length d + 4
size_of_packet t d rest h = rw (encode_packet_lem t d) (omega arith)

pub length-encode_packet : (t : ℕ) (d : List ℕ) → length (encode_packet t d) ≡ length d + 4
length-encode_packet t d = rw (encode_packet_lem t d) (omega arith)
