-- ===== src/Packet/Reads.antt =====
-- Rules for chains of reads: `Reads m s a` says that `m` reads `a` off a reader whose data goes on
-- with `s`, and passes it.
use mathlib.Core.Option
use gladiator.Prelude.{
  ℕ, ◌+◌, ◌<◌, ◌≡◌, refl, ap, ◌∙◌, Option, none, some, List, [], ◌∷◌, ◌++◌, arith, length,
  length-drop, length-append,
}
use gladiator.Prelude.Buffers.{NoNull, bytes_32, uint32_at}
use gladiator.Packet.Reader.{
  Reader, Read, ◌>>=◌, continue, pure, new_reader, rest, read_string, read_n_bytes, read_uint32,
  advance, HasCursor, read_string-print, read_n_bytes-print, rest-advance,
}

pub record Reads {A : Type 0} (m : Read A) (s : List ℕ) (a : A) : Type 0 where
  pub reads :
      (r : Reader) (t : List ℕ)
      → HasCursor r
      → rest r ≡ s ++ t
      → m r ≡ some (a, advance (length s) r)

advance-HasCursor :
    (r : Reader) (s t : List ℕ) → HasCursor r → rest r ≡ s ++ t → HasCursor (advance (length s) r)
advance-HasCursor r s t c e =
    omega (arith, ap length e, length-drop r.cursor r.data_, length-append s t, c)

pub append_assoc : (s u t : List ℕ) → (s ++ u) ++ t ≡ s ++ (u ++ t)
append_assoc [] u t = refl
append_assoc (x ∷ s) u t = ap (λ l. x ∷ l) (append_assoc s u t)

pub Reads-bind :
    {A B : Type 0} {m : Read A} (f : A → Read B) {s u : List ℕ} {a : A} {b : B}
    → Reads m s a
    → Reads (f a) u b
    → Reads (m >>= f) (s ++ u) b
Reads-bind {A} {B} {m} f {s} {u} {a} {b} h k = record {
  reads = λ r t c e.
      let e' : rest r ≡ s ++ (u ++ t) = e ∙ append_assoc s u t in
      let first = h.reads r (u ++ t) c e' in
      let second =
        k.reads (advance (length s) r) t (advance-HasCursor r s (u ++ t) c e')
          (rest-advance r s (u ++ t) (length s) e' refl) in
      ap (continue f) first
      ∙ second
      ∙ ap (λ n. some (b, record r { cursor = n })) {x = r.cursor + length s + length u}
          {y = r.cursor + length (s ++ u)} (omega (arith, length-append s u));
}

pub Reads-pure : {A : Type 0} (a : A) → Reads (pure a) [] a
Reads-pure a = record {
  reads = λ r t c e.
      ap (λ n. some (a, record r { cursor = n })) {x = r.cursor} {y = r.cursor + 0} (omega arith);
}

pub Reads-string : (s : List ℕ) → NoNull s → Reads read_string (s ++ (0 ∷ [])) s
Reads-string s n = record {
  reads = λ r t c e.
      read_string-print r s t (e ∙ append_assoc s (0 ∷ []) t) n
      ∙ ap (λ k. some (s, record r { cursor = r.cursor + k })) {x = length s + 1}
          {y = length (s ++ (0 ∷ []))} (omega (arith, length-append s (0 ∷ [])));
}

pub Reads-bytes : (s : List ℕ) (n : ℕ) → n ≡ length s → Reads (read_n_bytes n) s s
Reads-bytes s n h = record {
  reads = λ r t c e.
      read_n_bytes-print r s t n e h c
      ∙ ap (λ k. some (s, record r { cursor = r.cursor + k })) {x = n} {y = length s} h;
}

pub Reads-uint32 : (x : ℕ) → x < 4294967296 → Reads read_uint32 (bytes_32 x) x
unfolding read_uint32
Reads-uint32 x h = record {
  reads = λ r t c e.
      ap (Option.map (λ p. (uint32_at p.0 0, p.1)))
        ((Reads-bytes (bytes_32 x) 4 refl).reads r t c e)
      ∙ ap (λ y. some (y, advance 4 r)) (omega (arith, h));
}

-- A chain that fails on data that goes on with `s`.
pub record Fails {A : Type 0} (m : Read A) (s : List ℕ) : Type 0 where
  pub refuses : (r : Reader) (t : List ℕ) → HasCursor r → rest r ≡ s ++ t → m r ≡ none

pub Fails-bind :
    {A B : Type 0} {m : Read A} (f : A → Read B) {s u : List ℕ} {a : A}
    → Reads m s a
    → Fails (f a) u
    → Fails (m >>= f) (s ++ u)
Fails-bind {A} {B} {m} f {s} {u} {a} h k = record {
  refuses = λ r t c e.
      let e' : rest r ≡ s ++ (u ++ t) = e ∙ append_assoc s u t in
      ap (continue f) (h.reads r (u ++ t) c e')
      ∙ k.refuses (advance (length s) r) t (advance-HasCursor r s (u ++ t) c e')
          (rest-advance r s (u ++ t) (length s) e' refl);
}

-- What `Parse` returns: the value of the reads on a new reader.
abbrev pub parsed : {A : Type 0} → Read A → List ℕ → Option A
parsed m data_ = Option.map (λ p. p.0) (m (new_reader data_))

-- Data that starts with `s` is parsed to `a`, whatever follows.
pub parsed-Reads :
    {A : Type 0} {m : Read A} {s : List ℕ} {a : A} (t : List ℕ)
    → Reads m s a
    → parsed m (s ++ t) ≡ some a
unfolding new_reader
parsed-Reads {s = s} t h =
    ap (Option.map (λ p. p.0)) (h.reads (new_reader (s ++ t)) t (omega arith) refl)

pub parsed-Fails :
    {A : Type 0} {m : Read A} {s : List ℕ} (t : List ℕ) → Fails m s → parsed m (s ++ t) ≡ none
unfolding new_reader
parsed-Fails {s = s} t h =
    ap (Option.map (λ p. p.0)) (h.refuses (new_reader (s ++ t)) t (omega arith) refl)
