-- ===== src/Backend/HostManager.antt =====
-- internal/backend/redirect/host_manager.go: the loopback addresses that stand for the other players,
-- and the fake hosts that listen or dial there. A `*FakeHost` is a pointer into `heap`. The lock makes
-- each operation one step. The sockets, `net.ParseIP` and the printing of an address are libraries: what
-- they answer is an argument. A result of `Started` says how a start ends, the goroutines included.
use gladiator.Prelude.{
  ℕ, zero, suc, ◌+◌, Bool, true, false, not, ◌&&◌, ◌||◌, Option, none, some, List, [], ◌∷◌, ◌++◌,
  Text, text_Eq, if◌then◌else◌, ltb, eqb, get_or,
}
use gladiator.Prelude.Maps.{Map, lookup, insert, delete}
pub mod Addresses
pub mod Hosts
pub mod Starting
pub mod Steps

pub data HostType : Type 0 where
  dial listen : HostType

pub record FakeHost : Type 0 where
  pub type : HostType
  pub ip : Text
  pub last_seen : ℕ
  pub proxy_udp : Option ℕ
  pub proxy_tcp : Option ℕ

pub record HostManager : Type 0 where
  pub ip_prefix : List ℕ
  pub hosts : Map Text ℕ
  pub peer_hosts : Map Text ℕ
  pub peer_ips : Map Text Text
  pub ip_to_peer_id : Map Text Text
  pub heap : ℕ → FakeHost
  pub next : ℕ
  -- the hosts whose context was cancelled and the proxies that were closed, oldest first
  pub stopped : List ℕ
  pub closed : List ℕ

-- `net.IP.String` and `net.ParseIP`, the latter as whether it succeeds.
pub record Net : Type 0 where
  pub ip_string : List ℕ → Text
  pub parses : Text → Bool

unfoldable pub new_manager : List ℕ → HostManager
new_manager ip_prefix = record {
  ip_prefix = ip_prefix;
  hosts = [];
  peer_hosts = [];
  peer_ips = [];
  ip_to_peer_id = [];
  heap = λ q. record { type = dial; ip = []; last_seen = 0; proxy_udp = none; proxy_tcp = none };
  next = 0;
  stopped = [];
  closed = [];
}

-- The address 127.0.x.i.
abbrev pub address : Net → HostManager → ℕ → Text
address net hm i = net.ip_string (127 ∷ 0 ∷ get_or hm.ip_prefix 2 0 ∷ i ∷ [])

-- The loop of `AssignIP`, with `todo` values of `i` to go.
unfoldable pub assign_from : Net → Text → ℕ → ℕ → HostManager → Option (HostManager × Text)
assign_from net remote_id i zero hm = none
assign_from net remote_id i (suc todo) hm =
    let rest = assign_from net remote_id (suc i) todo hm in
    elim (lookup (address net hm i) hm.ip_to_peer_id) [
      | some _ ↦ rest
      | none ↦ some (
        record hm {
          peer_ips = insert remote_id (address net hm i) hm.peer_ips;
          ip_to_peer_id = insert (address net hm i) remote_id hm.ip_to_peer_id;
        },
        address net hm i,
      )
    ]

unfoldable pub assign_ip : Net → Text → HostManager → Option (HostManager × Text)
unfolding assign_from
assign_ip net remote_id hm = elim (lookup remote_id hm.peer_ips) [
  | some ip ↦ some (hm, ip)
  | none ↦ assign_from net remote_id 2 253 hm
]

-- A proxy that is there is closed.
abbrev pub proxy_list : Option ℕ → List ℕ
proxy_list none = []
proxy_list (some p) = p ∷ []

-- A missing key reads as the empty string.
abbrev pub text_or_empty : Option Text → Text
text_or_empty none = []
text_or_empty (some t) = t

unfoldable pub stop_host : ℕ → Text → HostManager → HostManager
stop_host host ip_address hm =
    let remote_id = text_or_empty (lookup ip_address hm.ip_to_peer_id) in
    record hm {
      stopped = hm.stopped ++ (host ∷ []);
      closed =
          hm.closed ++ (proxy_list (hm.heap host).proxy_tcp ++ proxy_list (hm.heap host).proxy_udp);
      hosts = delete ip_address hm.hosts;
      ip_to_peer_id = delete ip_address hm.ip_to_peer_id;
      peer_ips = delete remote_id hm.peer_ips;
      peer_hosts = delete remote_id hm.peer_hosts;
    }

-- A loop over the hosts that stops those for which `chosen` holds. `StopHost` deletes only the entry
-- that the loop is at, so that the loop meets the entries which were there at first.
unfoldable pub stop_where : (Text → FakeHost → Bool) → Map Text ℕ → HostManager → HostManager
stop_where chosen [] hm = hm
stop_where chosen ((ip, host) ∷ hosts) hm =
    stop_where chosen hosts (if chosen ip (hm.heap host) then stop_host host ip hm else hm)

unfoldable pub stop_all : HostManager → HostManager
unfolding stop_where
stop_all hm = record (stop_where (λ ip host. true) hm.hosts hm) {
  hosts = [];
  peer_hosts = [];
  peer_ips = [];
  ip_to_peer_id = [];
}

-- `strings.HasPrefix`
unfoldable pub has_prefix : Text → Text → Bool
has_prefix t [] = true
has_prefix [] (c ∷ prefix) = false
has_prefix (d ∷ t) (c ∷ prefix) = eqb c d && has_prefix t prefix

unfoldable pub remove_by_ip : Text → HostManager → HostManager
unfolding stop_where
remove_by_ip ip_addr_or_prefix hm =
    stop_where (λ ip host. has_prefix ip ip_addr_or_prefix) hm.hosts hm

unfoldable pub remove_by_remote_id : Text → HostManager → HostManager
unfolding stop_host
remove_by_remote_id remote_id hm = elim (lookup remote_id hm.peer_ips) [
  | none ↦ hm
  | some ip ↦ elim (lookup ip hm.hosts) [ none ↦ hm | some host ↦ stop_host host ip hm ]
]

-- `CleanupInactive`, at the time `now`.
unfoldable pub cleanup_inactive : ℕ → ℕ → HostManager → HostManager
unfolding stop_where
cleanup_inactive now timeout hm =
    stop_where (λ ip host. ltb (now + timeout) host.last_seen) hm.hosts hm

unfoldable pub set_host : Text → Text → ℕ → HostManager → HostManager
set_host ip peer_id host hm = record hm {
  peer_ips = insert peer_id ip hm.peer_ips;
  ip_to_peer_id = insert ip peer_id hm.ip_to_peer_id;
  hosts = insert ip host hm.hosts;
  peer_hosts = insert peer_id host hm.peer_hosts;
}

-- How a start ends: an error, the panic of a goroutine, or a running host.
pub data Started : Type 0 where
  refused : Started
  panics : Started
  running : HostManager → ℕ → Started

-- The new host behind the checks and the dials.
abbrev pub register : HostType → Text → Text → Option ℕ → Option ℕ → ℕ → HostManager → HostManager
register type peer_id ip_address tcp udp now hm = record hm {
  heap = λ q.
      if eqb q hm.next
      then record {
        type = type;
        ip = ip_address;
        last_seen = now;
        proxy_udp = udp;
        proxy_tcp = tcp;
      }
      else hm.heap q;
  next = suc hm.next;
  hosts = insert ip_address hm.next hm.hosts;
  peer_hosts = insert peer_id hm.next hm.peer_hosts;
}

-- A socket is opened if its port is positive: whether that fails, and the proxy there is then.
abbrev pub fails : ℕ → Option ℕ → Bool
fails port none = ltb 0 port
fails port (some _) = false

abbrev pub opened : ℕ → Option ℕ → Option ℕ
opened port socket = if ltb 0 port then socket else none

abbrev pub is_running : Option ℕ → Bool
is_running none = false
is_running (some _) = true

-- `tcp` and `udp` are what the dialers would answer, `none` for an error. The goroutine of a guest
-- runs the UDP proxy without a test whether there is one, and that of a host tests both.
unfoldable pub start_guest :
    Net → Text → Text → ℕ → ℕ → Option ℕ → Option ℕ → ℕ → HostManager → Started
start_guest net peer_id ip_address tcp_port udp_port tcp udp now hm =
    if not (net.parses ip_address)
    then refused
    else if is_running (lookup ip_address hm.hosts)
    then refused
    else if fails tcp_port tcp || fails udp_port udp
    then refused
    else if not (is_running (opened udp_port udp))
    then panics
    else running
        (register dial peer_id ip_address (opened tcp_port tcp) (opened udp_port udp) now hm)
        hm.next

unfoldable pub start_host :
    Net → Text → Text → ℕ → ℕ → Option ℕ → Option ℕ → ℕ → HostManager → Started
start_host net peer_id ip_address tcp_port udp_port tcp udp now hm =
    if not (net.parses ip_address)
    then refused
    else if is_running (lookup ip_address hm.hosts)
    then refused
    else if fails tcp_port tcp || fails udp_port udp
    then refused
    else running
        (register listen peer_id ip_address (opened tcp_port tcp) (opened udp_port udp) now hm)
        hm.next
