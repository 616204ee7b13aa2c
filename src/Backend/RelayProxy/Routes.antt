-- ===== src/Backend/RelayProxy/Routes.antt =====
-- The fake hosts of the router and their routes: what each change of the manager keeps.
use gladiator.Prelude.{
  ◌∷◌, Bool, if_rule, ℕ, zero, suc, ◌<◌, ◌≡◌, ◌≢◌, refl, sym, ap, ◌∙◌, subst, inl, inr, true, false,
  Option, none, some, List, [], Text, text_Eq, text_eq_iff, arith, if◌then◌else◌, ◌==◌,
  Option-cases, eqb, eqb_iff,
}
use gladiator.Prelude.Maps.{Map, lookup, insert, lookup-insert, lookup-delete}
use gladiator.Backend.HostManager.{
  FakeHost, stop_where, HostManager, HostType, Net, running, assign_ip, assign_from, address,
  stop_host, stop_all, remove_by_remote_id, set_host, register, is_running, opened, fails,
  text_or_empty, new_manager,
}
use gladiator.Backend.HostManager.Starting.{Made, opened-cases}
use gladiator.Backend.RelayProxy.{Route}

-- Each peer's fake host leads to that peer. Every host that was started takes datagrams, and a stream if its route
-- has one.
pub record IsRouted (hm : HostManager) (routes : ℕ → Route) : Type 0 where
  pub older : (p : Text) (h : ℕ) → lookup p hm.peer_hosts ≡ some h → h < hm.next
  pub leads : (p : Text) (h : ℕ) → lookup p hm.peer_hosts ≡ some h → (routes h).to_id ≡ p
  pub datagrams : (h : ℕ) → h < hm.next → is_running (hm.heap h).proxy_udp ≡ true
  pub streams :
      (h : ℕ) → h < hm.next → (routes h).tcp ≡ true → is_running (hm.heap h).proxy_tcp ≡ true

-- A manager with some of the entries of another.
pub fewer-IsRouted :
    (hm hm' : HostManager) (routes : ℕ → Route)
    → hm'.heap ≡ hm.heap
    → hm'.next ≡ hm.next
    → ((p : Text) (h : ℕ) → lookup p hm'.peer_hosts ≡ some h → lookup p hm.peer_hosts ≡ some h)
    → IsRouted hm routes
    → IsRouted hm' routes
fewer-IsRouted hm hm' routes heap next sub v = record {
  older = λ p h e. subst (λ n. h < n) (sym next) (v.older p h (sub p h e));
  leads = λ p h e. v.leads p h (sub p h e);
  datagrams = λ h lt.
      subst (λ f. is_running (f h).proxy_udp ≡ true) (sym heap)
        (v.datagrams h (subst (λ n. h < n) next lt));
  streams = λ h lt t.
      subst (λ f. is_running (f h).proxy_tcp ≡ true) (sym heap)
        (v.streams h (subst (λ n. h < n) next lt) t);
}

pub stop_host-IsRouted :
    (host : ℕ) (ip : Text) (hm : HostManager) (routes : ℕ → Route)
    → IsRouted hm routes
    → IsRouted (stop_host host ip hm) routes
unfolding stop_host
stop_host-IsRouted host ip hm routes v =
    fewer-IsRouted hm (stop_host host ip hm) routes refl refl
      (λ p h e. ground (arith, deleted p, e)) v
  where
    r : Text
    r = text_or_empty (lookup ip hm.ip_to_peer_id)

    deleted :
        (p : Text)
        → lookup p (stop_host host ip hm).peer_hosts
          ≡ (if r == p then none else lookup p hm.peer_hosts)
    deleted p = lookup-delete p r hm.peer_hosts

stop_where-IsRouted :
    (chosen : Text → FakeHost → Bool) (hosts : Map Text ℕ) (hm : HostManager) (routes : ℕ → Route)
    → IsRouted hm routes
    → IsRouted (stop_where chosen hosts hm) routes
unfolding stop_where
stop_where-IsRouted chosen [] hm routes v = v
stop_where-IsRouted chosen ((ip, host) ∷ hosts) hm routes v =
    stop_where-IsRouted chosen hosts (if chosen ip (hm.heap host) then stop_host host ip hm else hm)
      routes
      (if_rule (λ m. IsRouted m routes) (chosen ip (hm.heap host))
        (stop_host-IsRouted host ip hm routes v) v)

pub stop_all-IsRouted :
    (hm : HostManager) (routes : ℕ → Route) → IsRouted hm routes → IsRouted (stop_all hm) routes
unfolding stop_all lookup
stop_all-IsRouted hm routes v =
    fewer-IsRouted (stop_where (λ ip host. true) hm.hosts hm) (stop_all hm) routes refl refl
      (λ p h e. absurd (cc e)) (stop_where-IsRouted (λ ip host. true) hm.hosts hm routes v)

pub new_manager-IsRouted :
    (ip_prefix : List ℕ) (routes : ℕ → Route) → IsRouted (new_manager ip_prefix) routes
unfolding new_manager lookup
new_manager-IsRouted ip_prefix routes = record {
  older = λ p h e. absurd (cc e);
  leads = λ p h e. absurd (cc e);
  datagrams = λ h lt. absurd (omega (arith, lt));
  streams = λ h lt t. absurd (omega (arith, lt));
}

pub remove_by_remote_id-IsRouted :
    (r : Text) (hm : HostManager) (routes : ℕ → Route)
    → IsRouted hm routes
    → IsRouted (remove_by_remote_id r hm) routes
unfolding remove_by_remote_id
remove_by_remote_id-IsRouted r hm routes v = elim (Option-cases (lookup r hm.peer_ips)) [
  | inl e ↦ rw (e, remove_by_remote_id) v
  | inr (ip, e) ↦ elim (Option-cases (lookup ip hm.hosts)) [
    | inl f ↦ rw (e, f, remove_by_remote_id) v
    | inr (host, f) ↦ rw (e, f, remove_by_remote_id) (stop_host-IsRouted host ip hm routes v)
  ]
]

-- `AssignIP` changes the tables of addresses alone.
abbrev SameHosts : HostManager → HostManager → Type 0
SameHosts hm hm' =
    (hm'.heap ≡ hm.heap)
    × (hm'.next ≡ hm.next)
    × (hm'.peer_hosts ≡ hm.peer_hosts)
    × (hm'.hosts ≡ hm.hosts)

abbrev IfAssigned : HostManager → Option (HostManager × Text) → Type 0
IfAssigned hm none = Unit
IfAssigned hm (some x) = SameHosts hm x.0

assign_from-SameHosts :
    (net : Net) (r : Text) (i todo : ℕ) (hm : HostManager)
    → IfAssigned hm (assign_from net r i todo hm)
unfolding assign_from
assign_from-SameHosts net r i zero hm = tt
assign_from-SameHosts net r i (suc todo) hm =
    elim (Option-cases (lookup (address net hm i) hm.ip_to_peer_id)) [
      | inl f ↦ rw (f, assign_from) (refl, refl, refl, refl)
      | inr (q, f) ↦ rw (f, assign_from) (assign_from-SameHosts net r (suc i) todo hm)
    ]

assign_ip-SameHosts : (net : Net) (r : Text) (hm : HostManager) → IfAssigned hm (assign_ip net r hm)
unfolding assign_ip
assign_ip-SameHosts net r hm = elim (Option-cases (lookup r hm.peer_ips)) [
  | inl e ↦ rw (e, assign_ip) (assign_from-SameHosts net r 2 253 hm)
  | inr (ip, e) ↦ rw (e, assign_ip) (refl, refl, refl, refl)
]

pub assign_ip-IsRouted :
    (net : Net) (r : Text) (hm : HostManager) (routes : ℕ → Route)
    → IsRouted hm routes
    → (x : HostManager × Text) → assign_ip net r hm ≡ some x
    → IsRouted x.0 routes
assign_ip-IsRouted net r hm routes v x e =
    let (heap, next, peers, hosts) = subst (IfAssigned hm) e (assign_ip-SameHosts net r hm) in
    fewer-IsRouted hm x.0 routes heap next (λ p h k. sym (ap (lookup p) peers) ∙ k) v

-- The routes behind the start of a host.
abbrev pub with_route : Route → ℕ → (ℕ → Route) → ℕ → Route
with_route route host routes = λ h. if eqb h host then route else routes h

pub Made-IsRouted :
    (type : HostType) (peer ip : Text) (tcp_port udp_port : ℕ) (tcp udp : Option ℕ) (now : ℕ)
    (hm hm' : HostManager) (host : ℕ) (routes : ℕ → Route) (route : Route)
    → route.to_id ≡ peer
    → udp_port ≢ 0
    → (route.tcp ≡ true → tcp_port ≢ 0)
    → IsRouted hm routes
    → Made type peer ip tcp_port udp_port tcp udp now hm (running hm' host)
    → IsRouted hm' (with_route route host routes)
      × (lookup peer hm'.peer_hosts ≡ some host)
      × (hm'.peer_ips ≡ hm.peer_ips)
      × (hm'.ip_to_peer_id ≡ hm.ip_to_peer_id)
Made-IsRouted type peer ip tcp_port udp_port tcp udp now hm hm' host routes route to up st v
      (fresh, made, free, f, g) =
    subst (λ k. Rest k hm') (sym fresh)
      (subst (Rest hm.next) (sym made)
        (all, ground (arith, peers peer, text_eq_iff peer peer), refl, refl))
  where
    made_hm : HostManager
    made_hm = register type peer ip (opened tcp_port tcp) (opened udp_port udp) now hm

    Rest : ℕ → HostManager → Type 0
    Rest k m =
        IsRouted m (with_route route k routes)
        × (lookup peer m.peer_hosts ≡ some k)
        × (m.peer_ips ≡ hm.peer_ips)
        × (m.ip_to_peer_id ≡ hm.ip_to_peer_id)

    peers :
        (k : Text)
        → lookup k (insert peer hm.next hm.peer_hosts)
          ≡ (if peer == k then some hm.next else lookup k hm.peer_hosts)
    peers k = lookup-insert k peer hm.next hm.peer_hosts

    there :
        (port : ℕ) (s : Option ℕ)
        → port ≢ 0
        → fails port s ≡ false
        → is_running (opened port s) ≡ true
    there port s n e = elim (opened-cases port s e) [ inl z ↦ absurd (n z) | inr t ↦ t ]

    all : IsRouted made_hm (with_route route hm.next routes)
    all = record {
      older = λ p h e. ground (arith, peers p, text_eq_iff peer p, v.older p h, e);
      leads = λ p h e.
          ground (
            arith,
            peers p,
            text_eq_iff peer p,
            v.older p h,
            v.leads p h,
            eqb_iff h hm.next,
            to,
            e,
          );
      datagrams =
          λ h lt. ground (arith, v.datagrams h, eqb_iff h hm.next, there udp_port udp up g, lt);
      streams = λ h lt t. ground (
        arith,
        v.streams h,
        eqb_iff h hm.next,
        λ (u : route.tcp ≡ true). there tcp_port tcp (st u) f,
        lt,
        t,
      );
    }

-- `SetHost` of a host that was started for the peer.
pub set_host-IsRouted :
    (ip r : Text) (host : ℕ) (hm : HostManager) (routes : ℕ → Route)
    → host < hm.next
    → (routes host).to_id ≡ r
    → IsRouted hm routes
    → IsRouted (set_host ip r host hm) routes
unfolding set_host
set_host-IsRouted ip r host hm routes lt to v = record {
  older = λ p h e. ground (arith, inserted p, text_eq_iff r p, v.older p h, lt, e);
  leads = λ p h e. ground (arith, inserted p, text_eq_iff r p, v.leads p h, to, e);
  datagrams = v.datagrams;
  streams = v.streams;
}
  where
    inserted :
        (p : Text)
        → lookup p (insert r host hm.peer_hosts)
          ≡ (if r == p then some host else lookup p hm.peer_hosts)
    inserted p = lookup-insert p r host hm.peer_hosts
