-- ===== src/Packet/Tests.antt =====
-- Packets that arrive together, and strings in a packet.
use gladiator.Prelude.{ℕ, ◌+◌, ◌≡◌, refl, none, some, [], ◌∷◌, ◌++◌, length, take, map, arith}
use gladiator.Prelude.Buffers.{index_byte}
use gladiator.Packet.Split.{split}
use gladiator.Packet.Framing.{Packet, frame, stream, split-stream, split_panics}
use gladiator.Packet.Reader.{Reader, read_string}

abbrev ping : Packet
ping = record { packet_type = 21; payload = 1 ∷ 0 ∷ 0 ∷ 0 ∷ [] }

abbrev list_games : Packet
list_games = record { packet_type = 9; payload = [] }

split-stream_example :
    split (record {
      array = stream (ping ∷ list_games ∷ []) ++ (7 ∷ 7 ∷ []);
      len = length (stream (ping ∷ list_games ∷ []));
    })
    ≡ some (take 10 (map frame (ping ∷ list_games ∷ [])))
split-stream_example =
    split-stream ping (list_games ∷ []) (7 ∷ 7 ∷ []) (omega arith, (omega arith, tt))

-- A packet whose size is one more than the bytes that are there.
split_panics_example :
    split (record {
      array = frame ping ++ (255 ∷ 9 ∷ 6 ∷ 0 ∷ ([] ++ (0 ∷ [])));
      len = length ping.payload + 4 + (4 + length {A = ℕ} []);
    })
    ≡ none
split_panics_example = split_panics ping 9 6 0 [] (0 ∷ []) (omega arith) (omega arith) (omega arith)

-- The name "ab" and what follows it.
abbrev name_reader : Reader
name_reader = record { cursor = 1; data_ = 9 ∷ 97 ∷ 98 ∷ 0 ∷ 5 ∷ [] }

abbrev after_name : Reader
after_name = record { cursor = 4; data_ = 9 ∷ 97 ∷ 98 ∷ 0 ∷ 5 ∷ [] }

name_read : read_string name_reader ≡ some (97 ∷ 98 ∷ [], after_name)
unfolding read_string index_byte
name_read = refl
