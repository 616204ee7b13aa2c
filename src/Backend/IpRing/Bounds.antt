-- ===== src/Backend/IpRing/Bounds.antt =====
-- The addresses that the ring gives, one after another.
use gladiator.Prelude.{
  ℕ, zero, suc, ◌+◌, ◌%◌, ◌≡◌, refl, ap, ◌∙◌, Bool, true, false, Option, some, [], ◌∷◌, ◌++◌, Text,
  arith,
}
use gladiator.Backend.IpRing.{IpRing, Addr, new_ip_ring, filled, next_int, next_addr}

-- The ring behind a number of calls.
unfoldable pub after : (ℕ → Text) → ℕ → Option IpRing → Option IpRing
unfolding next_addr
after decimal zero r = r
after decimal (suc n) r = after decimal n (next_addr decimal r).0

-- The address of the call after `n` others.
abbrev pub address_of : (ℕ → Text) → Bool → ℕ → Addr
address_of decimal true next = record {
  ip = 127 ∷ 0 ∷ 0 ∷ 1 ∷ [];
  port_tcp = decimal 6114 ++ decimal next;
  port_udp = decimal 6113 ++ decimal next;
}
address_of decimal false next = record {
  ip = 127 ∷ 0 ∷ 1 ∷ next ∷ [];
  port_tcp = [];
  port_udp = [];
}

-- However often `NextAddr` is called, a new ring gives an address, its ports are never too large, and the addresses are
-- numbered 2, 3 and 4 in turn: the fourth is the first again.
pub next_addr_lem :
    (decimal : ℕ → Text) (is_testing : Bool) (n : ℕ)
    → (next_addr decimal (after decimal n (some (new_ip_ring is_testing)))).1
      ≡ some (address_of decimal is_testing (2 + n % 3))
unfolding next_addr new_ip_ring filled after next_int
next_addr_lem decimal true zero = refl
next_addr_lem decimal false zero = refl
next_addr_lem decimal true (suc zero) = refl
next_addr_lem decimal false (suc zero) = refl
next_addr_lem decimal true (suc (suc zero)) = refl
next_addr_lem decimal false (suc (suc zero)) = refl
next_addr_lem decimal true (suc (suc (suc n))) =
    next_addr_lem decimal true n
    ∙ ap (λ k. some (address_of decimal true k)) {x = 2 + n % 3} {y = 2 + suc (suc (suc n)) % 3}
        (omega arith)
next_addr_lem decimal false (suc (suc (suc n))) =
    next_addr_lem decimal false n
    ∙ ap (λ k. some (address_of decimal false k)) {x = 2 + n % 3} {y = 2 + suc (suc (suc n)) % 3}
        (omega arith)
