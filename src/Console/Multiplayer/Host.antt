-- ===== src/Console/Multiplayer/Host.antt =====
-- Who becomes the host.
use gladiator.Prelude.{
  ℕ, ◌≤◌, ◌≡◌, refl, ◌⊎◌, inl, inr, false, some, none, [], ◌∷◌, arith, if◌then◌else◌, ltb, eqb_iff,
  nat_eq, Bool-cases, is_empty,
}
use gladiator.Prelude.Maps.{Map, lookup, Distinct}
use gladiator.Console.Multiplayer.State.{UserSession}
use gladiator.Console.Multiplayer.Rooms.{next_host_from, get_next_host}

-- `h` is `e` or one of the players, and none of these joined before it.
pub record IsEarliest (heap : ℕ → UserSession) (e : ℕ) (players : Map ℕ ℕ) (h : ℕ) : Type 0 where
  pub chosen : (h ≡ e) ⊎ ((id : ℕ) × (lookup id players ≡ some h))
  pub not_later : (heap h).joined_at ≤ (heap e).joined_at
  pub first : (id p : ℕ) → lookup id players ≡ some p → (heap h).joined_at ≤ (heap p).joined_at

IsEarliest-cons :
    (heap : ℕ → UserSession) (e id p h : ℕ) (players : Map ℕ ℕ)
    → lookup id players ≡ none
    → IsEarliest heap (if ltb (heap p).joined_at (heap e).joined_at then p else e) players h
    → IsEarliest heap e ((id, p) ∷ players) h
unfolding lookup
IsEarliest-cons heap e id p h players new v = record {
  chosen = elim v.chosen [
    | inl same ↦ elim (Bool-cases (ltb (heap p).joined_at (heap e).joined_at)) [
      | inl t ↦ inr (id, ground (arith, same, t, eqb_iff id id))
      | inr t ↦ inl (ground (arith, same, t))
    ]
    | inr (j, f) ↦ inr (j, ground (arith, f, new, eqb_iff id j))
  ];
  not_later = ground (arith, v.not_later);
  first = λ j q f. ground (arith, v.not_later, v.first j q, f, eqb_iff id j);
}

next_host_from-IsEarliest :
    (heap : ℕ → UserSession) (e : ℕ) (players : Map ℕ ℕ)
    → Distinct players
    → (h : ℕ) × (next_host_from heap (some e) players ≡ some h) × IsEarliest heap e players h
unfolding next_host_from
next_host_from-IsEarliest heap e [] d = (
  e,
  refl,
  record {
    chosen = inl refl;
    not_later = omega arith;
    first = λ id p f. absurd (unfold lookup in cc f);
  },
)
next_host_from-IsEarliest heap e ((id, p) ∷ players) d =
    let (h, found, v) =
      next_host_from-IsEarliest heap (if ltb (heap p).joined_at (heap e).joined_at then p else e)
        players d.1 in
    (h, found, IsEarliest-cons heap e id p h players d.0 v)

-- In a room with players there is a next host: a player whom nobody precedes, by the time of joining.
pub get_next_host_lem :
    (heap : ℕ → UserSession) (players : Map ℕ ℕ)
    → Distinct players
    → is_empty players ≡ false
    → (h : ℕ) × (get_next_host heap players ≡ some h)
      × ((id : ℕ) × (lookup id players ≡ some h))
      × ((id p : ℕ) → lookup id players ≡ some p → (heap h).joined_at ≤ (heap p).joined_at)
unfolding get_next_host lookup
get_next_host_lem heap [] d n = absurd (cc n)
get_next_host_lem heap ((id, p) ∷ players) d n =
    let (h, found, v) = next_host_from-IsEarliest heap p players d.1 in
    (
      h,
      found,
      elim v.chosen [
        | inl e ↦ (id, ground (arith, e, eqb_iff id id))
        | inr (j, f) ↦ (j, ground (arith, f, d.0, eqb_iff id j))
      ],
      λ j q f. ground (arith, v.not_later, v.first j q, f, eqb_iff id j),
    )

-- An empty room has none.
pub get_next_host_empty : (heap : ℕ → UserSession) → get_next_host heap [] ≡ none
unfolding get_next_host
get_next_host_empty heap = refl
