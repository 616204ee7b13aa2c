-- ===== src/Backend/IpRing.antt =====
-- internal/backend/proxy/p2p/ip_ring.go: the ring of addresses for the peers of a game. `container/ring` is the list
-- of its values from the present one on. A nil ring is `none`; the lock makes each operation one step.
pub mod Bounds
use gladiator.Prelude.{
  ℕ, zero, suc, ◌+◌, ◌*◌, Bool, true, false, ◌||◌, Option, none, some, List, [], ◌∷◌, ◌++◌, Text,
  if◌then◌else◌, ltb,
}
use gladiator.Prelude.Buffers.{u8}

abbrev pub ring_size : ℕ
ring_size = 3

abbrev pub ip_start : ℕ
ip_start = 2

abbrev pub max_port_number : ℕ
max_port_number = 65535

pub record IpRing : Type 0 where
  pub ring : List ℕ
  pub tcp_port_prefix : ℕ
  pub udp_port_prefix : ℕ
  pub is_testing : Bool

-- The loop of `NewIpRing`, from `i` on with `todo` elements to go; then the ring is back at its start.
unfoldable pub filled : ℕ → ℕ → List ℕ
filled i zero = []
filled i (suc todo) = (i + ip_start) ∷ filled (suc i) todo

unfoldable pub new_ip_ring : Bool → IpRing
unfolding filled
new_ip_ring is_testing = record {
  ring = filled 0 ring_size;
  tcp_port_prefix = 6114;
  udp_port_prefix = 6113;
  is_testing = is_testing;
}

-- `Reset` does nothing.
unfoldable pub reset_ring : IpRing → IpRing
reset_ring r = r

abbrev pub turn : List ℕ → List ℕ × ℕ
turn [] = ([], 0)
turn (d ∷ rest) = (rest ++ (d ∷ []), d)

unfoldable pub next_int : Option IpRing → Option IpRing × ℕ
next_int none = (none, 0)
next_int (some r) = (some (record r { ring = (turn r.ring).0 }), (turn r.ring).1)

-- An address and the ports for TCP and UDP, as they are printed.
pub record Addr : Type 0 where
  pub ip : List ℕ
  pub port_tcp : Text
  pub port_udp : Text

-- `decimal` is `%d`. `none` is an error.
unfoldable pub next_addr : (ℕ → Text) → Option IpRing → Option IpRing × Option Addr
unfolding next_int
next_addr decimal none = (none, none)
next_addr decimal (some r) =
    let (r', next) = next_int (some r) in
    if r.is_testing
    then (if ltb max_port_number (r.tcp_port_prefix * 10 + next)
          || ltb max_port_number (r.udp_port_prefix * 10 + next)
        then (r', none)
        else (
          r',
          some (record {
            ip = 127 ∷ 0 ∷ 0 ∷ 1 ∷ [];
            port_tcp = decimal r.tcp_port_prefix ++ decimal next;
            port_udp = decimal r.udp_port_prefix ++ decimal next;
          }),
        ))
    else (r', some (record { ip = 127 ∷ 0 ∷ 1 ∷ u8 next ∷ []; port_tcp = []; port_udp = [] }))
