-- ===== src/Backend/Requests/GameBytes.antt =====
-- The formats of the requests about games and the ranking.
use gladiator.Prelude.{
  suc, ◌+◌, ◌/◌, ◌%◌, Bool, length-append, ℕ, ◌<◌, ◌≡◌, refl, sym, ap, ◌∙◌, inl, inr, true, false,
  none, some, List, [], ◌∷◌, ◌++◌, Text, length, arith, if◌then◌else◌, ltb, Bool-cases,
}
use gladiator.Prelude.Buffers.{
  NoNull, bytes_32, copy_at, set, make_bytes, copy_at-fits, copy_at-append, u8,
}
use gladiator.Packet.Reader.{Read}
use gladiator.Packet.Reads.{
  Reads, Reads-bind, Reads-pure, Reads-string, Reads-uint32, parsed-Reads, Fails, Fails-bind,
  parsed-Fails, append_assoc,
}
use gladiator.Backend.Requests.Bytes.{terminated}
use gladiator.Backend.Requests.Games.{
  parse_create_game, RankingRequestData, new_ranking_request, parse_ranking, fail,
}

checked-Reads :
    {A : Type 0} {m : Read A} {s : List ℕ} {a : A} (b : Bool)
    → b ≡ false
    → Reads m s a
    → Reads (if b then fail else m) s a
checked-Reads b e h = rw e h

checked-Fails :
    {A : Type 0} (b : Bool) (m : Read A) (s : List ℕ) → b ≡ true → Fails (if b then fail else m) s
checked-Fails b m s e = rw e (record { refuses = λ r t c f. refl })

-- Packet 28 is the state of the game and its map, two 32-bit numbers, then the name of the room and the
-- password. It is refused exactly if the map is above 5; more data is ignored.
pub parse_create_game-print :
    (state map_id : ℕ) (room_name password : Text) (more : List ℕ)
    → state < 4294967296
    → map_id < 4294967296
    → NoNull room_name
    → NoNull password
    → parse_create_game (
        (bytes_32 state
          ++ (bytes_32 map_id ++ (terminated room_name ++ (terminated password ++ []))))
        ++ more)
      ≡ (if ltb 5 map_id
          then none
          else some (record {
            state = state;
            map_id = map_id;
            room_name = room_name;
            password = password;
          }))
unfolding parse_create_game
parse_create_game-print state map_id room_name password more h k l m =
    elim (Bool-cases (ltb 5 map_id)) [
      | inl b ↦
          parsed-Fails more (
            Fails-bind _ (Reads-uint32 state h)
              (Fails-bind _ (Reads-uint32 map_id k) (checked-Fails (ltb 5 map_id) _ _ b)))
          ∙ ap
              (λ c.
                if c
                then none
                else some (record {
                  state = state;
                  map_id = map_id;
                  room_name = room_name;
                  password = password;
                }))
              (sym b)
      | inr b ↦
          parsed-Reads more (
            Reads-bind _ (Reads-uint32 state h) (
              Reads-bind _ (Reads-uint32 map_id k) (
                checked-Reads (ltb 5 map_id) b (
                  Reads-bind _ (Reads-string room_name l)
                    (Reads-bind _ (Reads-string password m) (Reads-pure _))))))
          ∙ ap
              (λ c.
                if c
                then none
                else some (record {
                  state = state;
                  map_id = map_id;
                  room_name = room_name;
                  password = password;
                }))
              (sym b)
    ]

append-nil : (s : List ℕ) → s ++ [] ≡ s
append-nil [] = refl
append-nil (x ∷ s) = ap (λ l. x ∷ l) (append-nil s)

-- The four bytes of the class, the offset and the two names.
abbrev pub print_ranking : RankingRequestData → List ℕ
print_ranking d =
    bytes_32 d.class_type
    ++ (bytes_32 d.offset ++ (terminated d.username ++ (terminated d.character_name ++ [])))

-- Two names into zeroed memory.
names_lem :
    (user char : Text)
    → copy_at
        (length user + 1)
        char
        (set (copy_at 0 user (make_bytes (length user + suc (length char + 1)))) (length user) 0)
      ≡ terminated user ++ (terminated char ++ [])
names_lem user char =
    ap (λ b. copy_at (length user + 1) char (set b (length user) 0))
      (copy_at-fits user (suc (length char + 1)))
    ∙ ap (copy_at (length user + 1) char)
        (copy_at-append user (0 ∷ []) (0 ∷ make_bytes (length char + 1)))
    ∙ ap (copy_at (length user + 1) char)
        (sym (append_assoc user (0 ∷ []) (make_bytes (length char + 1))))
    ∙ ap (λ i. copy_at i char (terminated user ++ make_bytes (length char + 1)))
        {y = length (terminated user)} (omega (arith, length-append user (0 ∷ [])))
    ∙ copy_at-append (terminated user) char (make_bytes (length char + 1))
    ∙ ap (λ b. terminated user ++ b) (copy_at-fits char 1 ∙ sym (append-nil (terminated char)))

new_ranking_request_lem :
    (d : RankingRequestData) → d.class_type < 256 → new_ranking_request d ≡ print_ranking d
unfolding new_ranking_request
new_ranking_request_lem d h =
    ap (λ n. copy_at (8 + lu + 1) d.character_name (set (filled n) (8 + lu) 0))
      {x = 4 + 4 + lu + 1 + lc + 1} {y = behind (lu + suc (lc + 1))} (omega arith)
    ∙ ap
        (λ i. copy_at (8 + lu + 1) d.character_name (set (filled (behind (lu + suc (lc + 1)))) i 0))
        {x = 8 + lu} {y = behind lu} (omega arith)
    ∙ ap (λ j. copy_at j d.character_name (set (filled (behind (lu + suc (lc + 1)))) (behind lu) 0))
        {x = 8 + lu + 1} {y = behind (lu + 1)} (omega arith)
    ∙ ap (λ names. u8 d.class_type ∷ 0 ∷ 0 ∷ 0 ∷ (bytes_32 d.offset ++ names))
        (names_lem d.username d.character_name)
    ∙ (λ i.
        u8 d.class_type
        ∷ high 256 (omega (arith, h)) i
        ∷ high 65536 (omega (arith, h)) i
        ∷ high 16777216 (omega (arith, h)) i
        ∷ (bytes_32 d.offset ++ (terminated d.username ++ (terminated d.character_name ++ []))))
  where
    lu : ℕ
    lu = length d.username

    lc : ℕ
    lc = length d.character_name

    behind : ℕ → ℕ
    behind n = suc (suc (suc (suc (suc (suc (suc (suc (n))))))))

    filled : ℕ → List ℕ
    filled n =
        copy_at 8 d.username
          (copy_at 4 (bytes_32 d.offset) (set (make_bytes n) 0 (u8 d.class_type)))

    high : (n : ℕ) → d.class_type / n % 256 ≡ 0 → 0 ≡ u8 (d.class_type / n)
    high n e = sym e

-- For names without a null byte, a class below 256 and an offset below 2^32, `Parse` gives back what
-- `NewRankingRequest` was given.
pub parse_ranking-new_ranking_request :
    (d : RankingRequestData)
    → d.class_type < 256
    → d.offset < 4294967296
    → NoNull d.username
    → NoNull d.character_name
    → parse_ranking (new_ranking_request d) ≡ some d
unfolding parse_ranking
parse_ranking-new_ranking_request d h k l m =
    ap parse_ranking (new_ranking_request_lem d h ∙ sym (append-nil (print_ranking d)))
    ∙ parsed-Reads [] (
        Reads-bind _ (Reads-uint32 d.class_type (omega (arith, h))) (
          Reads-bind _ (Reads-uint32 d.offset k) (
            Reads-bind _ (Reads-string d.username l)
              (Reads-bind _ (Reads-string d.character_name m) (Reads-pure _)))))
    ∙ ap (λ c. some (record d { class_type = c })) {x = u8 d.class_type} (omega (arith, h))
