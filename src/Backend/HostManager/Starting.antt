-- ===== src/Backend/HostManager/Starting.antt =====
-- Starting fake hosts: when it fails, when it panics, and what it registers.
use gladiator.Prelude.{
  ℕ, zero, suc, ◌<◌, ◌≡◌, refl, ◌⊎◌, inl, inr, true, false, not, ◌||◌, Option, none, some, Text,
  text_Eq, arith, if◌then◌else◌, ◌==◌, Option-cases, Bool-cases, if_rule, eqb_iff,
}
use gladiator.Prelude.Maps.{lookup, lookup-insert}
use gladiator.Backend.HostManager.{
  FakeHost, HostManager, HostType, Net, Started, dial, listen, refused, panics, running,
  start_guest, start_host, is_running, register, fails, opened,
}

-- Why a start is refused.
abbrev pub Refusal : Net → Text → ℕ → ℕ → Option ℕ → Option ℕ → HostManager → Type 0
Refusal net ip tcp_port udp_port tcp udp hm =
    (net.parses ip ≡ false)
    ⊎ ((host : ℕ) × (lookup ip hm.hosts ≡ some host))
    ⊎ ((0 < tcp_port) × (tcp ≡ none))
    ⊎ ((0 < udp_port) × (udp ≡ none))

-- A port for which no socket is opened, or one whose socket is there.
abbrev pub IsReady : ℕ → Option ℕ → Type 0
IsReady port s = (port ≡ 0) ⊎ ((socket : ℕ) × (s ≡ some socket))

-- None of these reasons.
abbrev pub IsAllowed : Net → Text → ℕ → ℕ → Option ℕ → Option ℕ → HostManager → Type 0
IsAllowed net ip tcp_port udp_port tcp udp hm =
    (net.parses ip ≡ true)
    × (lookup ip hm.hosts ≡ none)
    × IsReady tcp_port tcp
    × IsReady udp_port udp

-- A started host: registered under its address, where no host was, and under its peer; every other
-- entry and the tables of addresses are as they were.
abbrev pub Registered : Text → Text → FakeHost → HostManager → HostManager → ℕ → Type 0
Registered peer ip fake hm hm' host =
    (lookup ip hm.hosts ≡ none)
    × (hm'.heap host ≡ fake)
    × ((k : Text) → lookup k hm'.hosts ≡ (if ip == k then some host else lookup k hm.hosts))
    × ((k : Text)
        → lookup k hm'.peer_hosts ≡ (if peer == k then some host else lookup k hm.peer_hosts))
    × (hm'.peer_ips ≡ hm.peer_ips)
    × (hm'.ip_to_peer_id ≡ hm.ip_to_peer_id)

-- How a start may end, with what a panic and a running host need.
abbrev pub Ends : Type 0 → Type 0 → Type 0 → Text → Text → FakeHost → HostManager → Started → Type 0
Ends Why Panic Runs peer ip fake hm refused = Why
Ends Why Panic Runs peer ip fake hm panics = Panic
Ends Why Panic Runs peer ip fake hm (running hm' host) = Runs × Registered peer ip fake hm hm' host

abbrev pub new_host : HostType → Text → Option ℕ → Option ℕ → ℕ → FakeHost
new_host type ip tcp udp now = record {
  type = type;
  ip = ip;
  last_seen = now;
  proxy_udp = udp;
  proxy_tcp = tcp;
}

register-Registered :
    (type : HostType) (peer ip : Text) (tcp udp : Option ℕ) (now : ℕ) (hm : HostManager)
    → lookup ip hm.hosts ≡ none
    → Registered peer ip
        (new_host type ip tcp udp now)
        hm
        (register type peer ip tcp udp now hm)
        hm.next
register-Registered type peer ip tcp udp now hm e = (
  e,
  ground (arith, eqb_iff hm.next hm.next),
  λ k. lookup-insert k ip hm.next hm.hosts,
  λ k. lookup-insert k peer hm.next hm.peer_hosts,
  refl,
  refl,
)

-- A socket that should be opened is there, or its dial failed.
socket-cases :
    (port : ℕ) (s : Option ℕ)
    → (fails port s ≡ false) ⊎ ((fails port s ≡ true) × (0 < port) × (s ≡ none))
socket-cases zero none = inl refl
socket-cases (suc port) none = inr (ground arith, omega arith, refl)
socket-cases port (some x) = inl refl

fails-IsReady : (port : ℕ) (s : Option ℕ) → fails port s ≡ false → IsReady port s
fails-IsReady zero s h = inl refl
fails-IsReady (suc port) none h = inl (ground (arith, h))
fails-IsReady port (some x) h = inr (x, refl)

pub opened-cases :
    (port : ℕ) (s : Option ℕ)
    → fails port s ≡ false
    → (port ≡ 0) ⊎ (is_running (opened port s) ≡ true)
opened-cases zero s h = inl refl
opened-cases (suc port) none h = inl (ground (arith, h))
opened-cases (suc port) (some x) h = inr (ground arith)

-- What stands behind the tests of `StartGuest` and `StartHost`.
tests_rule :
    (P : Started → Type 0) (net : Net) (ip : Text) (tcp_port udp_port : ℕ) (tcp udp : Option ℕ)
    (hm : HostManager) (rest : Started)
    → (Refusal net ip tcp_port udp_port tcp udp hm → P refused)
    → (net.parses ip ≡ true
        → lookup ip hm.hosts ≡ none
        → fails tcp_port tcp ≡ false
        → fails udp_port udp ≡ false
        → P rest)
    → P (
        if not (net.parses ip)
        then refused
        else if is_running (lookup ip hm.hosts)
        then refused
        else if fails tcp_port tcp || fails udp_port udp
        then refused
        else rest)
tests_rule P net ip tcp_port udp_port tcp udp hm rest why h = elim (Bool-cases (net.parses ip)) [
  | inr e ↦ rw e (why (inl e))
  | inl e ↦ elim (Option-cases (lookup ip hm.hosts)) [
    | inr (host, f) ↦ rw (e, f) (why (inr (inl (host, f))))
    | inl f ↦ elim (socket-cases tcp_port tcp) [
      | inr (g, lack, dialled) ↦ rw (e, f, g) (why (inr (inr (inl (lack, dialled)))))
      | inl g ↦ elim (socket-cases udp_port udp) [
        | inr (k, lack, dialled) ↦ rw (e, f, g, k) (why (inr (inr (inr (lack, dialled)))))
        | inl k ↦ rw (e, f, g, k) (h e f g k)
      ]
    ]
  ]
]

socket_there :
    (port : ℕ) (s : Option ℕ)
    → fails port s ≡ false
    → ((port ≡ 0) × (is_running (opened port s) ≡ false))
      ⊎ ((0 < port) × (is_running (opened port s) ≡ true))
socket_there zero s h = inl (refl, refl)
socket_there (suc port) none h = inl (ground (arith, h))
socket_there (suc port) (some x) h = inr (omega arith, ground arith)

module _ (net : Net) (peer ip : Text) (tcp_port udp_port : ℕ) (tcp udp : Option ℕ) (now : ℕ)
    (hm : HostManager) where
  -- `StartHost` is refused exactly for an address that does not parse, one with a host already, or a socket that
  -- could not be opened, and never panics. Otherwise the new host, a listening one with the sockets of the positive
  -- ports, is registered under its address, which had none, and under its peer, and no other entry changes.
  pub start_host_lem :
      Ends
        (Refusal net ip tcp_port udp_port tcp udp hm)
        ⊥
        (IsAllowed net ip tcp_port udp_port tcp udp hm)
        peer
        ip
        (new_host listen ip (opened tcp_port tcp) (opened udp_port udp) now)
        hm
        (start_host net peer ip tcp_port udp_port tcp udp now hm)
  unfolding start_host
  start_host_lem =
      tests_rule
        (Ends (Refusal net ip tcp_port udp_port tcp udp hm) ⊥
          (IsAllowed net ip tcp_port udp_port tcp udp hm) peer ip
          (new_host listen ip (opened tcp_port tcp) (opened udp_port udp) now) hm)
        net ip tcp_port udp_port tcp udp hm _ (λ r. r)
        (λ d e f g. (
          (d, e, fails-IsReady tcp_port tcp f, fails-IsReady udp_port udp g),
          register-Registered listen peer ip (opened tcp_port tcp) (opened udp_port udp) now hm e,
        ))

  -- `StartGuest` is refused exactly for the same reasons. Otherwise it panics in the goroutine of the new guest
  -- exactly if the UDP port is 0, and else registers a dialling host in the same way.
  pub start_guest_lem :
      Ends
        (Refusal net ip tcp_port udp_port tcp udp hm)
        (IsAllowed net ip tcp_port udp_port tcp udp hm × (udp_port ≡ 0))
        (IsAllowed net ip tcp_port udp_port tcp udp hm × (0 < udp_port))
        peer
        ip
        (new_host dial ip (opened tcp_port tcp) (opened udp_port udp) now)
        hm
        (start_guest net peer ip tcp_port udp_port tcp udp now hm)
  unfolding start_guest
  start_guest_lem =
      let End : Started → Type 0 =
        Ends (Refusal net ip tcp_port udp_port tcp udp hm)
          (IsAllowed net ip tcp_port udp_port tcp udp hm × (udp_port ≡ 0))
          (IsAllowed net ip tcp_port udp_port tcp udp hm × (0 < udp_port)) peer ip
          (new_host dial ip (opened tcp_port tcp) (opened udp_port udp) now) hm in
      tests_rule End net ip tcp_port udp_port tcp udp hm _ (λ r. r)
        (λ d e g f.
          let allowed : IsAllowed net ip tcp_port udp_port tcp udp hm =
            (d, e, fails-IsReady tcp_port tcp g, fails-IsReady udp_port udp f) in
          elim (socket_there udp_port udp f) [
            | inl (z, closed) ↦ rw closed (allowed, z)
            | inr (positive, there) ↦ rw there (
              (allowed, positive),
              register-Registered dial peer ip (opened tcp_port tcp) (opened udp_port udp) now hm e,
            )
          ])

-- A host that runs is the one that was registered, behind the tests.
abbrev pub Made :
    HostType → Text → Text → ℕ → ℕ → Option ℕ → Option ℕ → ℕ → HostManager → Started → Type 0
Made type peer ip tcp_port udp_port tcp udp now hm refused = Unit
Made type peer ip tcp_port udp_port tcp udp now hm panics = Unit
Made type peer ip tcp_port udp_port tcp udp now hm (running hm' host) =
    (host ≡ hm.next)
    × (hm' ≡ register type peer ip (opened tcp_port tcp) (opened udp_port udp) now hm)
    × (lookup ip hm.hosts ≡ none)
    × (fails tcp_port tcp ≡ false)
    × (fails udp_port udp ≡ false)

module _ (net : Net) (peer ip : Text) (tcp_port udp_port : ℕ) (tcp udp : Option ℕ) (now : ℕ)
    (hm : HostManager) where
  pub start_host-Made :
      Made listen peer ip tcp_port udp_port tcp udp now hm
        (start_host net peer ip tcp_port udp_port tcp udp now hm)
  unfolding start_host
  start_host-Made =
      tests_rule (Made listen peer ip tcp_port udp_port tcp udp now hm) net ip tcp_port udp_port tcp
        udp hm _ (λ r. tt) (λ d e f g. (refl, refl, e, f, g))

  pub start_guest-Made :
      Made dial peer ip tcp_port udp_port tcp udp now hm
        (start_guest net peer ip tcp_port udp_port tcp udp now hm)
  unfolding start_guest
  start_guest-Made =
      tests_rule (Made dial peer ip tcp_port udp_port tcp udp now hm) net ip tcp_port udp_port tcp
        udp hm _ (λ r. tt)
        (λ d e f g.
          if_rule (Made dial peer ip tcp_port udp_port tcp udp now hm)
            (not (is_running (opened udp_port udp))) {x = panics}
            {y = running (register dial peer ip (opened tcp_port tcp) (opened udp_port udp) now hm)
              hm.next}
            tt (refl, refl, e, f, g))

-- What holds of every end of a start holds of the case distinction.
pub started_rule :
    {B : Type 0} (P : B → Type 0) (s : Started) {x y : B} {f : HostManager → ℕ → B}
    → P x
    → P y
    → ((hm : HostManager) (host : ℕ) → s ≡ running hm host → P (f hm host))
    → P (elim s [ refused ↦ x | panics ↦ y | running hm host ↦ f hm host ])
started_rule P refused h k l = h
started_rule P panics h k l = k
started_rule P (running hm host) h k l = l hm host refl
