-- ===== src/Packet/Reader.antt =====
-- internal/backend/packet/reader.go: a cursor over the data of a packet. `none` is `io.EOF`, which
-- leaves the reader as it was. A slice expression beyond the data would panic in the source; the
-- cursor never passes the end (`HasCursor`), so none of the reads meets it.
use mathlib.Core.Option
use gladiator.Prelude.{
  ℕ, suc, ◌+◌, ◌-◌, ◌≤◌, ◌<◌, ◌≡◌, refl, ap, sym, ◌∙◌, Option, none, some, List, [], ◌∷◌, ◌++◌,
  arith, length, take, drop, if◌then◌else◌, ltb, length-drop, length-append, Option-cases, inl, inr,
  ◌↔◌, subst,
}
use gladiator.Prelude.Buffers.{
  index_byte, uint16_at, uint32_at, NoNull, index_byte-null, index_byte-split, drop-drop, take_all,
  drop_all,
}

pub record Reader : Type 0 where
  pub cursor : ℕ
  pub data_ : List ℕ

abbrev pub Read : Type 0 → Type 0
Read A = Reader → Option (A × Reader)

-- The next read after a result; an error ends the chain.
abbrev pub continue : {A B : Type 0} → (A → Read B) → Option (A × Reader) → Option (B × Reader)
continue f none = none
continue f (some (a, r)) = f a r

infixl 5 ◌>>=◌
abbrev pub ◌>>=◌ : {A B : Type 0} → Read A → (A → Read B) → Read B
◌>>=◌ m f r = continue f (m r)

-- The value that a chain of reads returns; `Close` empties the reader.
abbrev pub pure : {A : Type 0} → A → Read A
pure a r = some (a, r)

unfoldable pub new_reader : List ℕ → Reader
new_reader d = record { cursor = 0; data_ = d }

-- What has not been read yet.
abbrev pub rest : Reader → List ℕ
rest r = drop r.cursor r.data_

unfoldable pub read_string : Read (List ℕ)
read_string r = elim (index_byte 0 (rest r)) [
  | none ↦ none
  | some pos ↦
      let end = pos + r.cursor in
      if ltb (length r.data_ - 1) end
      then none
      else some (take pos (rest r), record r { cursor = r.cursor + (pos + 1) })
]

unfoldable pub read_rest_bytes : Read (List ℕ)
read_rest_bytes r = some (rest r, r)

unfoldable pub read_n_bytes : ℕ → Read (List ℕ)
read_n_bytes n r =
    if ltb (length r.data_) (n + r.cursor)
    then none
    else some (take n (rest r), record r { cursor = r.cursor + n })

unfoldable pub read_uint8 : Read ℕ
read_uint8 r = Option.map (λ p. (elim p.0 [ [] ↦ 0 | b ∷ bs ↦ b ], p.1)) (read_n_bytes 1 r)

unfoldable pub read_uint16 : Read ℕ
read_uint16 r = Option.map (λ p. (uint16_at p.0 0, p.1)) (read_n_bytes 2 r)

unfoldable pub read_uint32 : Read ℕ
read_uint32 r = Option.map (λ p. (uint32_at p.0 0, p.1)) (read_n_bytes 4 r)

-- `Close` resets the cursor and drops the data.
unfoldable pub close : Reader → Reader
close r = record { cursor = 0; data_ = [] }

abbrev pub HasCursor : Reader → Type 0
HasCursor r = r.cursor ≤ length r.data_

-- The reader after a read: `n` bytes further.
abbrev pub advance : ℕ → Reader → Reader
advance n r = record r { cursor = r.cursor + n }

-- Reading a terminated string stops at its terminator, and the cursor passes it.
pub read_string-print :
    (r : Reader) (s t : List ℕ)
    → rest r ≡ s ++ (0 ∷ t)
    → NoNull s
    → read_string r ≡ some (s, advance (length s + 1) r)
unfolding read_string
read_string-print r s t e h = ground (
  arith,
  ap (index_byte 0) e ∙ index_byte-null s t h,
  ap length e,
  length-drop r.cursor r.data_,
  length-append s (0 ∷ t),
  ap (take (length s)) e ∙ take_all s (0 ∷ t) (length s) refl,
)

read_string_found :
    (r : Reader) (i : ℕ)
    → HasCursor r
    → index_byte 0 (rest r) ≡ some i
    → read_string r ≡ some (take i (rest r), advance (i + 1) r)
unfolding read_string
read_string_found r i c e =
    ground (arith, e, (index_byte-split (rest r) i e).2, length-drop r.cursor r.data_)

read_string-none : (r : Reader) → index_byte 0 (rest r) ≡ none → read_string r ≡ none
unfolding read_string
read_string-none r e = ground arith

abbrev StringRead : Reader → List ℕ × Reader → Type 0
StringRead r (s, r') = NoNull s × (rest r ≡ s ++ (0 ∷ rest r')) × HasCursor r'

found-StringRead :
    (r : Reader) (i : ℕ)
    → HasCursor r
    → index_byte 0 (rest r) ≡ some i
    → StringRead r (take i (rest r), advance (i + 1) r)
found-StringRead r i c e =
    let (n, split, below) = index_byte-split (rest r) i e in
    (
      n,
      split ∙ ap (λ t. take i (rest r) ++ (0 ∷ t)) next,
      omega (arith, length-drop r.cursor r.data_),
    )
  where
    next : drop (suc i) (rest r) ≡ rest (advance (i + 1) r)
    next =
        drop-drop (suc i) r.cursor r.data_
        ∙ ap (λ k. drop k r.data_) {x = r.cursor + suc i} {y = r.cursor + (i + 1)} (omega arith)

-- A string is read only up to a terminator that is there; it holds none itself, and the cursor
-- stays within the data.
pub read_string_inv :
    (r r' : Reader) (s : List ℕ)
    → HasCursor r
    → read_string r ≡ some (s, r')
    → NoNull s × (rest r ≡ s ++ (0 ∷ rest r')) × HasCursor r'
read_string_inv r r' s c h = elim (Option-cases (index_byte 0 (rest r))) [
  | inl e ↦ absurd (cc (h, read_string-none r e))
  | inr (i, e) ↦
      subst (StringRead r) {x = (take i (rest r), advance (i + 1) r)} {y = (s, r')}
        (cc (read_string_found r i c e, h)) (found-StringRead r i c e)
]

pub read_n_bytes-print :
    (r : Reader) (s t : List ℕ) (n : ℕ)
    → rest r ≡ s ++ t
    → n ≡ length s
    → HasCursor r
    → read_n_bytes n r ≡ some (s, advance n r)
unfolding read_n_bytes
read_n_bytes-print r s t n e h c = ground (
  arith,
  ap length e,
  length-drop r.cursor r.data_,
  length-append s t,
  ap (take n) e ∙ take_all s t n h,
)

-- The bytes are there exactly when the read succeeds.
pub read_n_bytes_short :
    (r : Reader) (n : ℕ) → HasCursor r → (read_n_bytes n r ≡ none) ↔ (length (rest r) < n)
unfolding read_n_bytes
read_n_bytes_short r n c = (
  λ h. ground (arith, length-drop r.cursor r.data_),
  λ h. ground (arith, length-drop r.cursor r.data_),
)

-- The rest after a read.
pub rest-advance :
    (r : Reader) (s t : List ℕ) (n : ℕ) → rest r ≡ s ++ t → n ≡ length s → rest (advance n r) ≡ t
rest-advance r s t n e h = sym (drop-drop n r.cursor r.data_) ∙ ap (drop n) e ∙ drop_all s t n h
