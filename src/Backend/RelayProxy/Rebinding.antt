-- ===== src/Backend/RelayProxy/Rebinding.antt =====
-- `handleHostMigration` when the client itself becomes the host: the guests that are started.
use gladiator.Prelude.{
  ℕ, ◌<◌, ◌≡◌, refl, ap, ◌∙◌, subst, inl, inr, true, none, some, [], ◌∷◌, Text, text_Eq,
  text_eq_iff, Bool-cases, arith, ◌==◌, eqb_iff,
}
use gladiator.Prelude.Maps.{Map, lookup, Distinct, lookup-insert, lookup-insert_self}
use gladiator.Backend.HostManager.{FakeHost, HostManager, dial, running, start_guest, register}
use gladiator.Backend.HostManager.Starting.{Made, start_guest-Made, started_rule}
use gladiator.Backend.Session.{Outcome, done}
use gladiator.Backend.RelayProxy.{PacketRouter, World, Route, routed}
use gladiator.Backend.RelayProxy.Router.{rebind, guest_started}

-- A guest that the addresses, the sockets and the hosts allow is started.
guest_runs :
    (w : World) (p ip : Text) (tcp udp : ℕ) (hm : HostManager)
    → w.net.parses ip ≡ true
    → lookup ip hm.hosts ≡ none
    → w.dial_tcp hm ≡ some tcp
    → w.dial_udp hm ≡ some udp
    → guest_started w p ip 6114 6113 hm
      ≡ running (register dial p ip (some tcp) (some udp) (w.now hm) hm) hm.next
unfolding start_guest
guest_runs w p ip tcp udp hm a b c d = rw (a, b, c, d) refl

-- The addresses are those of different peers, parse, and have no host.
pub record Ready (w : World) (entries : Map Text Text) (hm : HostManager) : Type 0 where
  pub distinct : Distinct entries
  pub free : (p ip : Text) → lookup p entries ≡ some ip → lookup ip hm.hosts ≡ none
  pub parses : (p ip : Text) → lookup p entries ≡ some ip → w.net.parses ip ≡ true
  pub apart : (p q ip : Text) → lookup p entries ≡ some ip → lookup q entries ≡ some ip → p ≡ q

abbrev pub guest_route : Text → Text → Route
guest_route room_id p = record { room_id = room_id; to_id = p; tcp = true }

-- The peer has a dialling host at the address, whose traffic goes to the peer.
abbrev pub HasGuest : Text → Text → Text → PacketRouter → Type 0
HasGuest room_id p ip r =
    (h : ℕ) × (lookup p r.manager.peer_hosts ≡ some h)
    × ((r.manager.heap h).type ≡ dial)
    × ((r.manager.heap h).ip ≡ ip)
    × (r.routes h ≡ guest_route room_id p)

pub record Rebound (room_id : Text) (entries : Map Text Text) (r : PacketRouter)
    (x : PacketRouter × Outcome) : Type 0 where
  pub outcome : x.1 ≡ done
  pub hosted : (p ip : Text) → lookup p entries ≡ some ip → HasGuest room_id p ip x.0
  pub others :
      (p : Text) (h : ℕ)
      → lookup p entries ≡ none
      → lookup p r.manager.peer_hosts ≡ some h
      → h < r.manager.next
      → (lookup p x.0.manager.peer_hosts ≡ some h)
        × (x.0.manager.heap h ≡ r.manager.heap h)
        × (x.0.routes h ≡ r.routes h)

module _ (w : World) (room_id p ip : Text) (entries : Map Text Text) (tcp udp : ℕ)
    (r : PacketRouter) (ready : Ready w ((p, ip) ∷ entries) r.manager) where
  abbrev hm : HostManager
  hm = register dial p ip (some tcp) (some udp) (w.now r.manager) r.manager

  abbrev next_router : PacketRouter
  next_router = routed (guest_route room_id p) r.manager.next hm r

  rebind-Ready : Ready w entries hm
  unfolding lookup
  rebind-Ready = record {
    distinct = ready.distinct.1;
    free = λ q a e.
        lookup-insert a ip r.manager.next r.manager.hosts
        ∙ ground (
          arith,
          text_eq_iff ip a,
          text_eq_iff p p,
          ready.free q a (later q a e),
          ready.apart p q a,
          later q a e,
          ready.distinct.0,
          e,
        );
    parses = λ q a e. ready.parses q a (later q a e);
    apart = λ q s a e f. ready.apart q s a (later q a e) (later s a f);
  }
    where
      later : (q a : Text) → lookup q entries ≡ some a → lookup q ((p, ip) ∷ entries) ≡ some a
      later q a e = ground (arith, text_eq_iff p q, ready.distinct.0, e)

  rebind-turn :
      (x : PacketRouter × Outcome)
      → Rebound room_id entries next_router x
      → Rebound room_id ((p, ip) ∷ entries) r x
  unfolding lookup
  rebind-turn x b = record {
    outcome = b.outcome;
    hosted = λ q a e. elim (Bool-cases (p == q)) [
      | inl s ↦
          let same : p ≡ q = (text_eq_iff p q).0 s in
          let at : ip ≡ a = ground (arith, s, e) in
          subst (λ k. HasGuest room_id k a x.0) same (subst (λ k. HasGuest room_id p k x.0) at own)
      | inr s ↦ b.hosted q a (ground (arith, s, e))
    ];
    others = λ q h e f l.
        let (at, heap, route) =
          b.others q h (rest q e)
            (lookup-insert q p r.manager.next r.manager.peer_hosts
              ∙ ground (arith, e, f, text_eq_iff p q))
            (omega (arith, l)) in
        (
          at,
          heap ∙ ground (arith, eqb_iff h r.manager.next, l),
          route ∙ ground (arith, eqb_iff h r.manager.next, l),
        );
  }
    where
      rest : (q : Text) → lookup {V = Text} q ((p, ip) ∷ entries) ≡ none → lookup q entries ≡ none
      rest q e = ground (arith, text_eq_iff p q, e)

      own : HasGuest room_id p ip x.0
      own =
          let (at, heap, route) =
            b.others p r.manager.next ready.distinct.0
              (lookup-insert_self p r.manager.next r.manager.peer_hosts) (omega arith) in
          (
            r.manager.next,
            at,
            ap (λ (h : FakeHost). h.type) heap
                ∙ ground (arith, eqb_iff r.manager.next r.manager.next),
            ap (λ (h : FakeHost). h.ip) heap
                ∙ ground (arith, eqb_iff r.manager.next r.manager.next),
            route ∙ ground (arith, eqb_iff r.manager.next r.manager.next),
          )

module _ (w : World) (room_id : Text) (tcp udp : ℕ)
    (dials_tcp : (hm : HostManager) → w.dial_tcp hm ≡ some tcp)
    (dials_udp : (hm : HostManager) → w.dial_udp hm ≡ some udp) where
  pub rebind_lem :
      (entries : Map Text Text) (r : PacketRouter)
      → Ready w entries r.manager
      → Rebound room_id entries r (rebind w room_id entries r)
  unfolding rebind lookup
  rebind_lem [] r ready = record {
    outcome = refl;
    hosted = λ p ip e. absurd (cc e);
    others = λ p h e f l. (f, refl, refl);
  }
  rebind_lem ((p, ip) ∷ entries) r ready =
      let first : lookup p ((p, ip) ∷ entries) ≡ some ip = ground (arith, text_eq_iff p p) in
      let runs =
        guest_runs w p ip tcp udp r.manager (ready.parses p ip first) (ready.free p ip first)
          (dials_tcp r.manager) (dials_udp r.manager) in
      rw (runs, rebind)
        (rebind-turn w room_id p ip entries tcp udp r ready _ (
          rebind_lem entries (next_router w room_id p ip entries tcp udp r ready)
            (rebind-Ready w room_id p ip entries tcp udp r ready)))

-- The second loop leaves the addresses alone, however far it comes.
pub rebind-peer_ips :
    (w : World) (room_id : Text) (entries : Map Text Text) (r : PacketRouter)
    → (rebind w room_id entries r).0.manager.peer_ips ≡ r.manager.peer_ips
unfolding rebind
rebind-peer_ips w room_id [] r = refl
rebind-peer_ips w room_id ((p, ip) ∷ entries) r =
    started_rule (λ (x : PacketRouter × Outcome). x.0.manager.peer_ips ≡ r.manager.peer_ips)
      (guest_started w p ip 6114 6113 r.manager) refl refl
      (λ hm h e.
        rebind-peer_ips w room_id entries (routed (guest_route room_id p) h hm r)
        ∙ ap (λ (m : HostManager). m.peer_ips)
            (subst
              (Made dial p ip 6114 6113 (w.dial_tcp r.manager) (w.dial_udp r.manager)
                (w.now r.manager) r.manager)
              e
              (start_guest-Made w.net p ip 6114 6113 (w.dial_tcp r.manager) (w.dial_udp r.manager)
                (w.now r.manager) r.manager)).1)
