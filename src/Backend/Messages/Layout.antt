-- ===== src/Backend/Messages/Layout.antt =====
-- The bytes of the messages of packet 15.
use gladiator.Prelude.{
  ℕ, suc, ◌+◌, ◌≡◌, ap, sym, ◌∙◌, List, [], ◌∷◌, ◌++◌, Text, length, length-append, arith,
}
use gladiator.Prelude.Buffers.{u8, make_bytes, set, copy_at, bytes_32, copy_at-fits, copy_at-append}
use gladiator.Packet.Reads.{append_assoc}
use gladiator.Backend.Messages.{
  append_character_to_lobby, remove_character_from_lobby, new_global_message, new_lobby_message,
  set_channel_name,
}

-- The header of twelve bytes in front of the text.
abbrev pub header : ℕ → ℕ → List ℕ → List ℕ → List ℕ
header op class_type word rest = op ∷ 0 ∷ 0 ∷ 0 ∷ class_type ∷ 0 ∷ 0 ∷ 0 ∷ (word ++ rest)

abbrev pub unused : List ℕ
unused = 0 ∷ 0 ∷ 0 ∷ 0 ∷ []

abbrev pub terminated_by_null : Text → List ℕ
terminated_by_null t = t ++ (0 ∷ [])

-- The zeroed buffer with room for twelve bytes more.
twelve : ℕ → List ℕ
twelve n = header 0 0 unused (make_bytes n)

buffer : (k n : ℕ) → k ≡ 12 + n → make_bytes k ≡ twelve n
unfolding twelve
buffer k n h =
    ap make_bytes {x = k}
      {y = suc (suc (suc (suc (suc (suc (suc (suc (suc (suc (suc (suc n)))))))))))}
      (omega (arith, h))

-- A text behind the header, and what the header holds.
text_layout :
    (op class_type b0 b1 b2 b3 : ℕ) (user : List ℕ) (k : ℕ)
    → k ≡ 12 + (length user + 1)
    → copy_at 12 user
        (copy_at 8 (b0 ∷ b1 ∷ b2 ∷ b3 ∷ []) (set (set (make_bytes k) 0 op) 4 class_type))
      ≡ header op class_type (b0 ∷ b1 ∷ b2 ∷ b3 ∷ []) (terminated_by_null user)
unfolding twelve
text_layout op class_type b0 b1 b2 b3 user k h =
    let word = b0 ∷ b1 ∷ b2 ∷ b3 ∷ [] in
    ap (λ m. copy_at 12 user (copy_at 8 word (set (set m 0 op) 4 class_type)))
      (buffer k (length user + 1) h)
    ∙ ap (header op class_type word) (copy_at-fits user 1)

plain_layout :
    (op : ℕ) (user : List ℕ) (k : ℕ)
    → k ≡ 12 + (length user + 1)
    → copy_at 12 user (set (make_bytes k) 0 op) ≡ header op 0 unused (terminated_by_null user)
unfolding twelve
plain_layout op user k h =
    ap (λ m. copy_at 12 user (set m 0 op)) (buffer k (length user + 1) h)
    ∙ ap (header op 0 unused) (copy_at-fits user 1)

chat_layout :
    (op : ℕ) (user text : Text)
    → copy_at
        (12 + length user + 1)
        text
        (copy_at 12 user (set (make_bytes (4 + 4 + 4 + length user + 1 + length text + 1)) 0 op))
      ≡ header op 0 unused (terminated_by_null user ++ terminated_by_null text)
unfolding twelve
chat_layout op user text =
    ap (λ m. copy_at (12 + length user + 1) text (copy_at 12 user (set m 0 op)))
      (buffer (4 + 4 + 4 + length user + 1 + length text + 1) (length user + suc (length text + 1))
        (omega arith))
    ∙ ap
        (λ i.
          copy_at i text (
            header op 0 unused (copy_at 0 user (make_bytes (length user + suc (length text + 1))))))
        {x = 12 + length user + 1}
        {y = suc (
          suc (
            suc (
              suc (
                suc
                  (suc (suc (suc (suc (suc (suc (suc (length (terminated_by_null user)))))))))))))}
        (omega (arith, length-append user (0 ∷ [])))
    ∙ ap (header op 0 unused) (
        ap (copy_at (length (terminated_by_null user)) text) (
          copy_at-fits user (suc (length text + 1))
          ∙ sym (append_assoc user (0 ∷ []) (make_bytes (length text + 1))))
        ∙ copy_at-append (terminated_by_null user) text (make_bytes (length text + 1))
        ∙ ap (◌++◌ (terminated_by_null user)) (copy_at-fits text 1))

channel_layout :
    (name : List ℕ)
    → copy_at 13 name (set (make_bytes (4 + 4 + 4 + 1 + length name + 1)) 0 7)
      ≡ header 7 0 unused (0 ∷ terminated_by_null name)
unfolding twelve
channel_layout name =
    ap (λ m. copy_at 13 name (set m 0 7))
      (buffer (4 + 4 + 4 + 1 + length name + 1) (suc (length name + 1)) (omega arith))
    ∙ ap (λ l. header 7 0 unused (0 ∷ l)) (copy_at-fits name 1)

-- The messages of packet 15 are laid out as the game reads them: the operation in the first byte, the class in
-- the fifth, the index in the ninth to the twelfth, and then the texts, each with a null byte behind it. Only
-- the name of a channel stands one byte later.
pub message_layouts :
    (user text : Text) (class_type idx : ℕ)
    → (append_character_to_lobby user class_type idx
        ≡ header 2 (u8 class_type) (bytes_32 idx) (terminated_by_null user))
      × (remove_character_from_lobby user ≡ header 3 0 unused (terminated_by_null user))
      × (new_global_message user text
          ≡ header 4 0 unused (terminated_by_null user ++ terminated_by_null text))
      × (new_lobby_message user text
          ≡ header 5 0 unused (terminated_by_null user ++ terminated_by_null text))
      × (set_channel_name user ≡ header 7 0 unused (0 ∷ terminated_by_null user))
unfolding append_character_to_lobby remove_character_from_lobby new_global_message new_lobby_message
    set_channel_name
message_layouts user text class_type idx = (
  text_layout 2 (u8 class_type) _ _ _ _ user (4 + 4 + 4 + length user + 1) (omega arith),
  plain_layout 3 user (4 + 4 + 4 + length user + 1) (omega arith),
  chat_layout 4 user text,
  chat_layout 5 user text,
  channel_layout user,
)
