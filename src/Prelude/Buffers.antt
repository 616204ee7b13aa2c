-- ===== src/Prelude/Buffers.antt =====
-- Byte slices as Go's standard library handles them: `make`, `copy`, index writes, `bytes.IndexByte`
-- and the little-endian words of `encoding/binary`.
use Prim.Native.Nat.{ℕ, zero, suc, ◌+◌, ◌*◌, ◌/◌, ◌%◌, ◌<◌, ◌≤◌}
use mathlib.Core.Path.{◌≡◌, refl, ap, ◌∙◌, sym}
use mathlib.Core.Logic.{◌≢◌}
use mathlib.Core.Option
use mathlib.Core.Option.{Option, none, some}
use mathlib.Core.List.{List, [], ◌∷◌, ◌++◌}
use native.Mathlib.Omega.{arith}
use gladiator.Prelude.Tests.{eqb, eqb_iff, if◌then◌else◌}
use gladiator.Prelude.Lists.{length, replicate, get_or, take, drop}

abbrev pub u8 : ℕ → ℕ
u8 n = n % 256

abbrev pub u16 : ℕ → ℕ
u16 n = n % 65536

abbrev pub u32 : ℕ → ℕ
u32 n = n % 4294967296

-- `make([]byte, n)`
abbrev pub make_bytes : ℕ → List ℕ
make_bytes n = replicate n 0

-- `copy(buf[i:], src)`: what does not fit is left out.
abbrev pub copy_at : ℕ → List ℕ → List ℕ → List ℕ
copy_at zero [] buf = buf
copy_at zero (x ∷ src) [] = []
copy_at zero (x ∷ src) (b ∷ buf) = x ∷ copy_at zero src buf
copy_at (suc i) src [] = []
copy_at (suc i) src (b ∷ buf) = b ∷ copy_at i src buf

-- `buf[i] = b`
abbrev pub set : List ℕ → ℕ → ℕ → List ℕ
set buf i b = copy_at i (b ∷ []) buf

-- `LittleEndian.AppendUint16` and `AppendUint32` on an empty slice.
abbrev pub bytes_16 : ℕ → List ℕ
bytes_16 v = u8 v ∷ u8 (v / 256) ∷ []

abbrev pub bytes_32 : ℕ → List ℕ
bytes_32 v = u8 v ∷ u8 (v / 256) ∷ u8 (v / 65536) ∷ u8 (v / 16777216) ∷ []

-- `LittleEndian.Uint16(buf[i:])` and `Uint32`.
abbrev pub uint16_at : List ℕ → ℕ → ℕ
uint16_at buf i = get_or buf i 0 + 256 * get_or buf (i + 1) 0

abbrev pub uint32_at : List ℕ → ℕ → ℕ
uint32_at buf i =
    get_or buf i 0
    + 256 * get_or buf (i + 1) 0
    + 65536 * get_or buf (i + 2) 0
    + 16777216 * get_or buf (i + 3) 0

-- `bytes.IndexByte`; `none` is -1.
unfoldable pub index_byte : ℕ → List ℕ → Option ℕ
index_byte c [] = none
index_byte c (b ∷ bs) = if eqb b c then some 0 else Option.map suc (index_byte c bs)

-- No byte of the text is the terminator.
abbrev pub NoNull : List ℕ → Type 0
NoNull [] = Unit {0}
NoNull (b ∷ bs) = (b ≢ 0) × NoNull bs

-- Every element is a byte.
abbrev pub AllBytes : List ℕ → Type 0
AllBytes [] = Unit {0}
AllBytes (b ∷ bs) = (b < 256) × AllBytes bs

pub index_byte-null : (s t : List ℕ) → NoNull s → index_byte 0 (s ++ (0 ∷ t)) ≡ some (length s)
unfolding index_byte
index_byte-null [] t h = refl
index_byte-null (b ∷ s) t h = ground (arith, index_byte-null s t h.1, eqb_iff b 0)

pub index_byte-split :
    (bs : List ℕ) (i : ℕ)
    → index_byte 0 bs ≡ some i
    → NoNull (take i bs) × (bs ≡ take i bs ++ (0 ∷ drop (suc i) bs)) × (i < length bs)
unfolding index_byte
index_byte-split [] i h = cc
index_byte-split (zero ∷ bs) zero h = (tt, refl, omega arith)
index_byte-split (zero ∷ bs) (suc i) h = cc
index_byte-split (suc b ∷ bs) zero h = absurd (ground arith)
index_byte-split (suc b ∷ bs) (suc i) h =
    let ih = index_byte-split bs i (ground arith) in
    ((omega arith, ih.0), ap (◌∷◌ (suc b)) ih.1, omega arith)

drop-nil : (n : ℕ) → drop {A = ℕ} n [] ≡ []
drop-nil zero = refl
drop-nil (suc n) = refl

pub drop-drop : (m n : ℕ) (bs : List ℕ) → drop m (drop n bs) ≡ drop (n + m) bs
drop-drop m zero bs = ap (λ k. drop k bs) {x = m} {y = 0 + m} (omega arith)
drop-drop m (suc n) [] = drop-nil m ∙ sym (drop-nil (suc n + m))
drop-drop m (suc n) (b ∷ bs) =
    drop-drop m n bs ∙ ap (λ k. drop k (b ∷ bs)) {x = suc (n + m)} {y = suc n + m} (omega arith)

-- An index into the rest of a buffer is an index into the buffer.
pub get_or-drop : (n i : ℕ) (bs : List ℕ) → get_or (drop n bs) i 0 ≡ get_or bs (n + i) 0
get_or-drop zero i bs = ap (λ k. get_or bs k 0) {x = i} {y = 0 + i} (omega arith)
get_or-drop (suc n) i [] = refl
get_or-drop (suc n) i (b ∷ bs) =
    get_or-drop n i bs
    ∙ ap (λ k. get_or (b ∷ bs) k 0) {x = suc (n + i)} {y = suc n + i} (omega arith)

pub take_all : (s t : List ℕ) (n : ℕ) → n ≡ length s → take n (s ++ t) ≡ s
take_all [] t zero h = refl
take_all [] t (suc n) h = absurd (omega arith)
take_all (b ∷ s) t zero h = absurd (omega arith)
take_all (b ∷ s) t (suc n) h = ap (◌∷◌ b) (take_all s t n (omega arith))

pub drop_all : (s t : List ℕ) (n : ℕ) → n ≡ length s → drop n (s ++ t) ≡ t
drop_all [] t zero h = refl
drop_all [] t (suc n) h = absurd (omega arith)
drop_all (b ∷ s) t zero h = absurd (omega arith)
drop_all (b ∷ s) t (suc n) h = drop_all s t n (omega arith)

-- A copy into zeroed memory of its own size, or with room behind.
pub copy_at-fits :
    (src : List ℕ) (n : ℕ) → copy_at 0 src (make_bytes (length src + n)) ≡ src ++ make_bytes n
copy_at-fits [] n = ap make_bytes {x = 0 + n} {y = n} (omega arith)
copy_at-fits (x ∷ src) n =
    ap (λ k. copy_at 0 (x ∷ src) (make_bytes k)) {x = suc (length src) + n}
      {y = suc (length src + n)} (omega arith)
    ∙ ap (◌∷◌ x) (copy_at-fits src n)

pub copy_at-append :
    (pre src buf : List ℕ) → copy_at (length pre) src (pre ++ buf) ≡ pre ++ copy_at 0 src buf
copy_at-append [] src buf = refl
copy_at-append (x ∷ pre) src buf = ap (◌∷◌ x) (copy_at-append pre src buf)

pub length-copy_at : (i : ℕ) (src buf : List ℕ) → length (copy_at i src buf) ≡ length buf
length-copy_at zero [] buf = refl
length-copy_at zero (x ∷ src) [] = refl
length-copy_at zero (x ∷ src) (b ∷ buf) = ap suc (length-copy_at zero src buf)
length-copy_at (suc i) src [] = refl
length-copy_at (suc i) src (b ∷ buf) = ap suc (length-copy_at i src buf)

pub copy_at-exact : (src : List ℕ) → copy_at 0 src (make_bytes (length src)) ≡ src
copy_at-exact [] = refl
copy_at-exact (x ∷ src) = ap (◌∷◌ x) (copy_at-exact src)

pub get_or-behind :
    (pre later : List ℕ) (i k : ℕ)
    → k ≡ length pre + i
    → get_or (pre ++ later) k 0 ≡ get_or later i 0
get_or-behind [] later i k h = ap (λ n. get_or later n 0) {x = k} {y = i} (omega arith)
get_or-behind (x ∷ pre) later i zero h = absurd (omega arith)
get_or-behind (x ∷ pre) later i (suc k) h = get_or-behind pre later i k (omega arith)

-- A list by its elements.
unfoldable pub tabulate : ℕ → (ℕ → ℕ) → List ℕ
tabulate zero f = []
tabulate (suc n) f = f 0 ∷ tabulate n (λ i. f (suc i))

pub take-tabulate :
    (n : ℕ) (bs : List ℕ) → n ≤ length bs → tabulate n (λ i. get_or bs i 0) ≡ take n bs
unfolding tabulate
take-tabulate zero bs h = refl
take-tabulate (suc n) [] h = absurd (omega arith)
take-tabulate (suc n) (b ∷ bs) h = ap (◌∷◌ b) (take-tabulate n bs (omega arith))
