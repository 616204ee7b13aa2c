-- ===== src/Packet/Framing.antt =====
-- What a sender frames is what the receiver splits, and what `Split` does beyond that.
use mathlib.Core.Option
use mathlib.Core.List.{append_assoc}
use gladiator.Prelude.{
  ℕ, zero, suc, ◌+◌, ◌*◌, ◌≤◌, ◌<◌, ◌≡◌, refl, ap, sym, ◌∙◌, none, some, List, [], ◌∷◌, ◌++◌, arith,
  length, take, drop, get_or, length-append, map,
}
use gladiator.Prelude.Buffers.{uint16_at, get_or-drop, drop-drop, take_all, drop_all, get_or-behind}
use gladiator.Packet.Encoder.{
  encode_packet, encode_packet_lem, size_of_packet, length-encode_packet,
}
use gladiator.Packet.Split.{Slice, split_from, split}

-- A packet before it is framed: its type and its data.
pub record Packet : Type 0 where
  pub packet_type : ℕ
  pub payload : List ℕ

abbrev pub frame : Packet → List ℕ
frame p = encode_packet p.packet_type p.payload

-- The frame's size fits the sixteen bits of the header.
abbrev pub AllFit : List Packet → Type 0
AllFit [] = Unit {0}
AllFit (p ∷ ps) = (length p.payload + 4 < 65536) × AllFit ps

abbrev pub stream : List Packet → List ℕ
stream [] = []
stream (p ∷ ps) = frame p ++ stream ps

-- What the loop reads at an offset where a frame begins.
module _ (array : List ℕ) (offset : ℕ) (p : Packet) (later : List ℕ)
    (here : drop offset array ≡ frame p ++ later) where
  header_read : get_or array offset 0 ≡ 255
  header_read =
      ap (λ k. get_or array k 0) {x = offset} {y = offset + 0} (omega arith)
      ∙ sym (get_or-drop offset 0 array)
      ∙ ap (λ b. get_or b 0 0) here
      ∙ ap (λ b. get_or (b ++ later) 0 0) (encode_packet_lem p.packet_type p.payload)

  size_read : length p.payload + 4 < 65536 → uint16_at array (offset + 2) ≡ length p.payload + 4
  size_read fits =
      ap (λ k. get_or array (offset + 2) 0 + 256 * get_or array k 0) {x = offset + 2 + 1}
        {y = offset + 3} (omega arith)
      ∙ omega (
        arith,
        get_or-drop offset 2 array,
        get_or-drop offset 3 array,
        ap (λ b. get_or b 2 0) here,
        ap (λ b. get_or b 3 0) here,
        size_of_packet p.packet_type p.payload later fits,
      )

  frame_read : take (length p.payload + 4) (drop offset array) ≡ frame p
  frame_read =
      ap (take (length p.payload + 4)) here
      ∙ take_all (frame p) later (length p.payload + 4)
          (sym (length-encode_packet p.packet_type p.payload))

  rest_read : drop (offset + (length p.payload + 4)) array ≡ later
  rest_read =
      sym (drop-drop (length p.payload + 4) offset array)
      ∙ ap (drop (length p.payload + 4)) here
      ∙ drop_all (frame p) later (length p.payload + 4)
          (sym (length-encode_packet p.packet_type p.payload))

-- At an offset where frames begin, the loop cuts them one after another.
split_from-stream :
    (rounds : ℕ) (buf : Slice) (offset : ℕ) (ps : List Packet) (spare : List ℕ)
    → AllFit ps
    → drop offset buf.array ≡ stream ps ++ spare
    → buf.len ≡ offset + length (stream ps)
    → buf.len ≤ length buf.array
    → split_from rounds buf offset ≡ some (take rounds (map frame ps))
unfolding split_from
split_from-stream zero buf offset ps spare h e l c = refl
split_from-stream (suc rounds) buf offset [] spare h e l c = ground arith
split_from-stream (suc rounds) buf offset (p ∷ ps) spare h e l c =
    let later = stream ps ++ spare in
    let here : drop offset buf.array ≡ frame p ++ later =
      e ∙ append_assoc (frame p) (stream ps) spare in
    let size = size_read buf.array offset p later here h.0 in
    let ih =
      split_from-stream rounds buf (offset + (length p.payload + 4)) ps spare h.1
        (rest_read buf.array offset p later here)
        (omega (
          arith,
          l,
          length-append (frame p) (stream ps),
          length-encode_packet p.packet_type p.payload,
        ))
        c in
    rw
      (
        size,
        header_read buf.array offset p later here,
        ih,
        frame_read buf.array offset p later here,
      )
      (ground (
        arith,
        l,
        length-append (frame p) (stream ps),
        length-encode_packet p.packet_type p.payload,
      ))

-- Frames that arrive together, in a buffer with any room behind them, are cut apart as they were
-- sent; only the first ten of them are returned.
pub split-stream :
    (p : Packet) (ps : List Packet) (spare : List ℕ)
    → AllFit (p ∷ ps)
    → split (record { array = stream (p ∷ ps) ++ spare; len = length (stream (p ∷ ps)) })
      ≡ some (take 10 (map frame (p ∷ ps)))
unfolding split
split-stream p ps spare h =
    let loop =
      split_from-stream 10
        (record { array = stream (p ∷ ps) ++ spare; len = length (stream (p ∷ ps)) }) 0 (p ∷ ps)
        spare h refl (omega arith) (omega (arith, length-append (stream (p ∷ ps)) spare)) in
    ground (
      arith,
      loop,
      length-append (frame p) (stream ps),
      length-encode_packet p.packet_type p.payload,
    )

-- A slice expression past the capacity: the round panics.
split_from_overrun :
    (rounds : ℕ) (buf : Slice) (offset size : ℕ)
    → get_or buf.array offset 0 ≡ 255
    → uint16_at buf.array (offset + 2) ≡ size
    → offset + 4 ≤ buf.len
    → size ≤ buf.len + offset
    → length buf.array < offset + size
    → split_from (suc rounds) buf offset ≡ none
unfolding split_from
split_from_overrun rounds buf offset size head e enough under over = rw (e, head) (ground arith)

-- One whole frame in front is cut off, and the loop goes on behind it.
split_from_next :
    (rounds : ℕ) (buf : Slice) (p : Packet) (later : List ℕ)
    → length p.payload + 4 < 65536
    → buf.array ≡ frame p ++ later
    → length p.payload + 4 ≤ buf.len
    → buf.len ≤ length buf.array
    → split_from (suc rounds) buf 0
      ≡ Option.map (◌∷◌ (frame p)) (split_from rounds buf (0 + (length p.payload + 4)))
unfolding split_from
split_from_next rounds buf p later fits here enough c =
    rw
      (
        size_read buf.array 0 p later here fits,
        header_read buf.array 0 p later here,
        frame_read buf.array 0 p later here,
      )
      (ground arith)

-- A whole frame in front that fits its 16-bit size, and behind it a header whose size field reaches past the capacity, the bytes `room` behind
-- the received ones included, but is at most the length and the offset taken together: it passes the oversize test,
-- and the slice expression panics.
pub split_panics :
    (p : Packet) (t low high : ℕ) (more room : List ℕ)
    → length p.payload + 4 < 65536
    → length more + 4 + length room < low + 256 * high
    → low + 256 * high ≤ 2 * (length p.payload + 4) + (length more + 4)
    → split (record {
      array = frame p ++ (255 ∷ t ∷ low ∷ high ∷ (more ++ room));
      len = length p.payload + 4 + (4 + length more);
    })
      ≡ none
unfolding split
split_panics p t low high more room h over under =
    let later : List ℕ = 255 ∷ t ∷ low ∷ high ∷ (more ++ room) in
    let buf : Slice = record {
      array = frame p ++ later;
      len = length p.payload + 4 + (4 + length more);
    } in
    let room_size = length-append more room in
    let size = length-encode_packet p.packet_type p.payload in
    let total = length-append (frame p) later in
    let next =
      split_from_next 9 buf p later h refl (omega (arith, size, total, room_size))
        (omega (arith, size, total, room_size)) in
    let n : ℕ = 0 + (length p.payload + 4) in
    let panic : split_from 9 buf n ≡ none =
      split_from_overrun 8 buf n (low + 256 * high)
        (get_or-behind (frame p) later 0 n (omega (arith, size)))
        (omega (
          arith,
          get_or-behind (frame p) later 2 (n + 2) (omega (arith, size)),
          get_or-behind (frame p) later 3 (n + 2 + 1) (omega (arith, size)),
        ))
        (omega (arith, size, total, room_size)) (omega (arith, size, total, room_size))
        (omega (arith, size, total, room_size)) in
    ground (arith, next, panic, size, total, room_size)
