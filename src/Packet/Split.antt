-- ===== src/Packet/Split.antt =====
-- internal/backend/packet/split.go. The received bytes are a slice: its backing array from the
-- slice's start up to its capacity, and its length. An expression `buf[i:j]` reaches up to the
-- capacity, and panics beyond it: `none`.
use mathlib.Core.Option
use gladiator.Prelude.{
  ℕ, zero, suc, ◌+◌, Option, none, some, List, [], ◌∷◌, length, take, drop, get_or, if◌then◌else◌,
  ltb, eqb, not,
}
use gladiator.Prelude.Buffers.{uint16_at}

pub record Slice : Type 0 where
  pub array : List ℕ
  pub len : ℕ

-- A slice with no room behind its length.
abbrev pub exact : List ℕ → Slice
exact bs = record { array = bs; len = length bs }

-- The rounds left of the loop `for i := 0; i < 10; i++`, and the offset.
unfoldable pub split_from : ℕ → Slice → ℕ → Option (List (List ℕ))
split_from zero buf offset = some []
split_from (suc rounds) buf offset =
    let size = uint16_at buf.array (offset + 2) in
    let packets = split_from rounds buf (offset + size) in
    if ltb buf.len (offset + 4)
    then some []
    else if not (eqb (get_or buf.array offset 0) 255)
    then some []
    else if ltb (buf.len + offset) size
    then some []
    else if ltb (length buf.array) (offset + size)
    then none
    else Option.map (◌∷◌ (take size (drop offset buf.array))) packets

unfoldable pub split : Slice → Option (List (List ℕ))
split buf = if ltb buf.len 4 then some (take buf.len buf.array ∷ []) else split_from 10 buf 0
