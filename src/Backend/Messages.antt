-- ===== src/Backend/Messages.antt =====
-- internal/backend/command_015_receive_message.go: the messages of packet 15.
pub mod Layout
use gladiator.Prelude.{ℕ, ◌+◌, List, Text, length}
use gladiator.Prelude.Buffers.{u8, make_bytes, set, copy_at, bytes_32}

abbrev pub op_lobby_append_user : ℕ
op_lobby_append_user = 2

abbrev pub op_lobby_remove_user : ℕ
op_lobby_remove_user = 3

abbrev pub op_chat_global : ℕ
op_chat_global = 4

abbrev pub op_chat_lobby : ℕ
op_chat_lobby = 5

abbrev pub op_set_channel_name : ℕ
op_set_channel_name = 7

unfoldable pub append_character_to_lobby : Text → ℕ → ℕ → List ℕ
append_character_to_lobby user_name class_type idx =
    let buf = make_bytes (4 + 4 + 4 + length user_name + 1) in
    let buf = set buf 0 op_lobby_append_user in
    let buf = set buf 4 (u8 class_type) in
    let buf = copy_at 8 (bytes_32 idx) buf in copy_at 12 user_name buf

unfoldable pub remove_character_from_lobby : Text → List ℕ
remove_character_from_lobby user_name =
    let buf = make_bytes (4 + 4 + 4 + length user_name + 1) in
    let buf = set buf 0 op_lobby_remove_user in copy_at 12 user_name buf

-- The two chat messages differ in their first byte.
unfoldable pub new_global_message : Text → Text → List ℕ
new_global_message user text =
    let buf = make_bytes (4 + 4 + 4 + length user + 1 + length text + 1) in
    let buf = set buf 0 op_chat_global in
    let buf = copy_at 12 user buf in copy_at (12 + length user + 1) text buf

unfoldable pub new_lobby_message : Text → Text → List ℕ
new_lobby_message user text =
    let buf = make_bytes (4 + 4 + 4 + length user + 1 + length text + 1) in
    let buf = set buf 0 op_chat_lobby in
    let buf = copy_at 12 user buf in copy_at (12 + length user + 1) text buf

unfoldable pub set_channel_name : Text → List ℕ
set_channel_name channel_name =
    let buf = make_bytes (4 + 4 + 4 + 1 + length channel_name + 1) in
    let buf = set buf 0 op_set_channel_name in copy_at 13 channel_name buf
