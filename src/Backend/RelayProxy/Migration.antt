-- ===== src/Backend/RelayProxy/Migration.antt =====
-- `handleHostMigration` when the client itself becomes the host: the hosts that are stopped.
use gladiator.Prelude.{
  ℕ, ◌≡◌, ◌≢◌, refl, sym, ap, ◌∙◌, subst, ◌⊎◌, inl, inr, Bool, true, false, ◌||◌, none, some, List,
  [], ◌∷◌, Text, text_Eq, text_eq_iff, Option-cases, Bool-cases, arith, ◌==◌,
}
use gladiator.Prelude.Maps.{
  Map, lookup, insert, Distinct, lookup-insert, lookup-delete, insert-Distinct, lookup-insert_self,
  lookup-delete_self,
}
use gladiator.Backend.HostManager.{HostManager, stop_host, text_or_empty}
use gladiator.Backend.HostManager.Addresses.{IsAddressed, stop_host_lem}
use gladiator.Backend.RelayProxy.Router.{unbind}

-- Each peer with a fake host has the address at which the host stands.
abbrev pub Placed : HostManager → Type 0
Placed hm =
    (p : Text) (h : ℕ)
    → lookup p hm.peer_hosts ≡ some h
    → lookup p hm.peer_ips ≡ some (hm.heap h).ip

-- A peer that has neither a host nor an address.
abbrev pub Gone : Text → HostManager → Type 0
Gone p hm = (lookup p hm.peer_hosts ≡ none) × (lookup p hm.peer_ips ≡ none)

-- What stopping the hosts at an address leaves of a peer with a name: nothing, if it had that address,
-- or else all.
module _ (host : ℕ) (ip p : Text) (hm : HostManager) (n : p ≢ []) (v : IsAddressed hm) where
  abbrev stopped : HostManager
  stopped = stop_host host ip hm

  stopped_peer :
      ((lookup p hm.peer_ips ≡ some ip) × Gone p stopped)
      ⊎ ((lookup p hm.peer_ips ≢ some ip)
          × (lookup p stopped.peer_hosts ≡ lookup p hm.peer_hosts)
          × (lookup p stopped.peer_ips ≡ lookup p hm.peer_ips))
  unfolding stop_host
  stopped_peer = elim (Option-cases (lookup ip hm.ip_to_peer_id)) [
    | inl e ↦ inr (
      λ f. absurd (cc (e, v.forward p ip f)),
      rw e (lookup-delete p [] hm.peer_hosts ∙ ground (arith, text_eq_iff [] p, n)),
      rw e (lookup-delete p [] hm.peer_ips ∙ ground (arith, text_eq_iff [] p, n)),
    )
    | inr (r, e) ↦ elim (Bool-cases (r == p)) [
      | inl f ↦
          let same : r ≡ p = (text_eq_iff r p).0 f in
          inl (
            ap (λ q. lookup q hm.peer_ips) (sym same) ∙ v.backward r ip e,
            (
              rw e (lookup-delete p r hm.peer_hosts ∙ ground (arith, f)),
              rw e (lookup-delete p r hm.peer_ips ∙ ground (arith, f)),
            ),
          )
      | inr f ↦ inr (
        λ g. absurd (ground (arith, text_eq_iff r p, f, e, v.forward p ip g)),
        rw e (lookup-delete p r hm.peer_hosts ∙ ground (arith, f)),
        rw e (lookup-delete p r hm.peer_ips ∙ ground (arith, f)),
      )
    ]
  ]

  pub stop_host-Gone : Gone p hm → Gone p stopped
  stop_host-Gone (h, a) = elim stopped_peer [
    | inl (e, gone) ↦ gone
    | inr (e, hosts, ips) ↦ (hosts ∙ h, ips ∙ a)
  ]

-- A peer with an address has a name.
pub peer_ne :
    (p ip : Text) (hm : HostManager) → IsAddressed hm → lookup p hm.peer_ips ≡ some ip → p ≢ []
peer_ne p ip hm v e h = absurd (cc (e, v.named, ap (λ q. lookup q hm.peer_ips) h))

stop_host-Placed :
    (host : ℕ) (ip : Text) (hm : HostManager) → Placed hm → Placed (stop_host host ip hm)
unfolding stop_host
stop_host-Placed host ip hm at p h e = ground (
  arith,
  lookup-delete p (text_or_empty (lookup ip hm.ip_to_peer_id)) hm.peer_hosts,
  lookup-delete p (text_or_empty (lookup ip hm.ip_to_peer_id)) hm.peer_ips,
  at p h,
  e,
)

-- Whether a peer is in a list.
abbrev pub mem : Text → List Text → Bool
mem p [] = false
mem p (q ∷ peers) = (q == p) || mem p peers

-- What the first loop leaves behind: each peer of the list that had a host has neither host nor address, no
-- host stands at its address, and the address is kept.
pub record Unbound (peers : List Text) (hm : HostManager) (acc : Map Text Text)
    (x : HostManager × Map Text Text) : Type 0 where
  pub heap : x.0.heap ≡ hm.heap
  pub next : x.0.next ≡ hm.next
  pub gone : (p : Text) → p ≢ [] → Gone p hm → Gone p x.0
  pub freed : (a : Text) → lookup a hm.hosts ≡ none → lookup a x.0.hosts ≡ none
  pub bound :
      (p : Text) (h : ℕ)
      → lookup p hm.peer_hosts ≡ some h
      → mem p peers ≡ true
      → Gone p x.0 × (lookup p x.1 ≡ some (hm.heap h).ip) × (lookup (hm.heap h).ip x.0.hosts ≡ none)
  pub kept :
      (p : Text)
      → (mem p peers ≡ true → lookup p hm.peer_hosts ≡ none)
      → lookup p x.1 ≡ lookup p acc
  pub distinct : Distinct acc → Distinct x.1

module _ (q : Text) (h : ℕ) (peers : List Text) (hm : HostManager) (acc : Map Text Text)
    (v : IsAddressed hm) (at : Placed hm) (e : lookup q hm.peer_hosts ≡ some h) where
  abbrev ip : Text
  ip = (hm.heap h).ip

  abbrev first : HostManager
  first = stop_host h ip hm

  first-Gone : Gone q first
  first-Gone = elim (stopped_peer h ip q hm (peer_ne q ip hm v (at q h e)) v) [
    | inl (_, gone) ↦ gone
    | inr (n, _, _) ↦ absurd (n (at q h e))
  ]

  first-others :
      (p : Text) (k : ℕ)
      → q ≢ p
      → lookup p hm.peer_hosts ≡ some k
      → lookup p first.peer_hosts ≡ some k
  first-others p k n f =
      elim (stopped_peer h ip p hm (peer_ne p (hm.heap k).ip hm v (at p k f)) v) [
        | inl (a, _) ↦ absurd (n (cc (v.forward p ip a, v.forward q ip (at q h e))))
        | inr (_, hosts, _) ↦ hosts ∙ f
      ]

  abbrev Bound : HostManager × Map Text Text → Text → ℕ → Type 0
  Bound x p k =
      Gone p x.0 × (lookup p x.1 ≡ some (hm.heap k).ip) × (lookup (hm.heap k).ip x.0.hosts ≡ none)

  -- One turn of the loop and the rest of it.
  unbind-turn :
      (x : HostManager × Map Text Text)
      → Unbound peers first (insert q ip acc) x
      → Unbound (q ∷ peers) hm acc x
  unfolding stop_host
  unbind-turn x u = record {
    heap = u.heap;
    next = u.next;
    gone = λ p n g. u.gone p n (stop_host-Gone h ip p hm n v g);
    freed = λ a f. u.freed a (lookup-delete a ip hm.hosts ∙ ground (arith, f));
    bound = λ p k f m. elim (Bool-cases (q == p)) [
      | inl s ↦
          subst (λ r. Bound x r k) ((text_eq_iff q p).0 s)
            (subst (Bound x q) (cc (e, f, ap (λ r. lookup r hm.peer_hosts) ((text_eq_iff q p).0 s)))
              self)
      | inr s ↦
          u.bound p k (first-others p k (λ r. absurd (ground (arith, text_eq_iff q p, s, r))) f)
            (ground (arith, s, m))
    ];
    kept = λ p f.
        u.kept p (λ m. emptied p (f (ground (arith, m))))
        ∙ lookup-insert p q ip acc
        ∙ ground (arith, text_eq_iff q p, e, f);
    distinct = λ d. u.distinct (insert-Distinct q ip acc d);
  }
    where
      self : Bound x q h
      self = (
        u.gone q (peer_ne q ip hm v (at q h e)) first-Gone,
        u.kept q (λ m. first-Gone.0) ∙ lookup-insert_self q ip acc,
        u.freed ip (lookup-delete_self ip hm.hosts),
      )

      emptied : (p : Text) → lookup p hm.peer_hosts ≡ none → lookup p first.peer_hosts ≡ none
      emptied p f =
          lookup-delete p (text_or_empty (lookup ip hm.ip_to_peer_id)) hm.peer_hosts
          ∙ ground (arith, f)

-- A turn for a peer without a host.
unbind-skip :
    (q : Text) (peers : List Text) (hm : HostManager) (acc : Map Text Text)
    (x : HostManager × Map Text Text)
    → lookup q hm.peer_hosts ≡ none
    → Unbound peers hm acc x
    → Unbound (q ∷ peers) hm acc x
unbind-skip q peers hm acc x e u = record {
  heap = u.heap;
  next = u.next;
  gone = u.gone;
  freed = u.freed;
  bound = λ p h f m. u.bound p h f (ground (arith, text_eq_iff q p, e, f, m));
  kept = λ p f. u.kept p (λ m. f (ground (arith, m)));
  distinct = u.distinct;
}

pub unbind_lem :
    (peers : List Text) (hm : HostManager) (acc : Map Text Text)
    → IsAddressed hm
    → Placed hm
    → Unbound peers hm acc (unbind peers hm acc)
unfolding unbind
unbind_lem [] hm acc v at = record {
  heap = refl;
  next = refl;
  gone = λ p n g. g;
  freed = λ a f. f;
  bound = λ p h f m. absurd (cc m);
  kept = λ p f. refl;
  distinct = λ d. d;
}
unbind_lem (q ∷ peers) hm acc v at = elim (Option-cases (lookup q hm.peer_hosts)) [
  | inl e ↦ rw (e, unbind) (unbind-skip q peers hm acc _ e (unbind_lem peers hm acc v at))
  | inr (h, e) ↦
      rw (e, unbind)
        (unbind-turn q h peers hm acc v at e _ (
          unbind_lem peers (stop_host h (hm.heap h).ip hm) (insert q (hm.heap h).ip acc)
            (stop_host_lem h (hm.heap h).ip hm v).0 (stop_host-Placed h (hm.heap h).ip hm at)))
]
