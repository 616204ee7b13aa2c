-- ===== src/Backend/HostManager/Addresses.antt =====
-- `AssignIP` and `StopHost`: addresses and peers correspond one to one.
use gladiator.Prelude.{
  ℕ, zero, suc, ◌+◌, ◌<◌, ◌≤◌, ◌≡◌, ◌≢◌, refl, sym, ◌∙◌, ◌⊎◌, inl, inr, none, some, List, [], Text,
  text_Eq, text_eq_iff, arith, if◌then◌else◌, ◌==◌, Option-cases, Bool-cases, eqb, eqb_iff, subst,
}
use gladiator.Prelude.Maps.{lookup, insert, lookup-insert, lookup-delete, lookup-delete_self}
use gladiator.Backend.HostManager.{
  HostManager, Net, address, assign_from, assign_ip, stop_host, new_manager, text_or_empty,
}

-- The two tables of addresses are inverse to each other, and no peer has the empty name.
pub record IsAddressed (hm : HostManager) : Type 0 where
  pub forward : (r ip : Text) → lookup r hm.peer_ips ≡ some ip → lookup ip hm.ip_to_peer_id ≡ some r
  pub backward :
      (r ip : Text) → lookup ip hm.ip_to_peer_id ≡ some r → lookup r hm.peer_ips ≡ some ip
  pub named : lookup [] hm.peer_ips ≡ none

-- The result of `AssignIP`: the address of the peer from then on, and of no other peer.
abbrev pub Assigned : HostManager → Text → HostManager × Text → Type 0
Assigned hm r (hm', ip) =
    ((k : Text) → lookup k hm'.peer_ips ≡ (if r == k then some ip else lookup k hm.peer_ips))
    × ((k : Text)
        → lookup k hm'.ip_to_peer_id ≡ (if ip == k then some r else lookup k hm.ip_to_peer_id))
    × (hm'.hosts ≡ hm.hosts)
    × (hm'.peer_hosts ≡ hm.peer_hosts)

-- It depends on the tables alone.
pub IsAddressed-tables :
    (hm hm' : HostManager)
    → ((k : Text) → lookup k hm'.peer_ips ≡ lookup k hm.peer_ips)
    → ((k : Text) → lookup k hm'.ip_to_peer_id ≡ lookup k hm.ip_to_peer_id)
    → IsAddressed hm
    → IsAddressed hm'
IsAddressed-tables hm hm' to back v = record {
  forward = λ r ip h. back ip ∙ v.forward r ip (sym (to r) ∙ h);
  backward = λ r ip h. to r ∙ v.backward r ip (sym (back ip) ∙ h);
  named = to [] ∙ v.named;
}

eq_or_above : (i j : ℕ) → i ≤ j → (i ≡ j) ⊎ (suc i ≤ j)
eq_or_above i j h = elim (Bool-cases (eqb i j)) [
  | inl e ↦ inl (ground (arith, eqb_iff i j, e))
  | inr e ↦ inr (ground (arith, eqb_iff i j, e, h))
]

-- The loop finds an address that no peer has, or each of its addresses has a peer.
assign_from_lem :
    (net : Net) (r : Text) (i todo : ℕ) (hm : HostManager)
    → ((assign_from net r i todo hm ≡ none)
        × ((j : ℕ)
            → i ≤ j
            → j < i + todo
            → (q : Text) × (lookup (address net hm j) hm.ip_to_peer_id ≡ some q)))
      ⊎ ((x : HostManager × Text) × (assign_from net r i todo hm ≡ some x)
          × (lookup x.1 hm.ip_to_peer_id ≡ none)
          × Assigned hm r x)
unfolding assign_from
assign_from_lem net r i zero hm = inl (refl, λ j h k. absurd (omega (arith, h, k)))
assign_from_lem net r i (suc todo) hm =
    elim (Option-cases (lookup (address net hm i) hm.ip_to_peer_id)) [
      | inl e ↦ inr (
        (
          record hm {
            peer_ips = insert r (address net hm i) hm.peer_ips;
            ip_to_peer_id = insert (address net hm i) r hm.ip_to_peer_id;
          },
          address net hm i,
        ),
        rw (e, assign_from) refl,
        e,
        (
          λ k. lookup-insert k r (address net hm i) hm.peer_ips,
          λ k. lookup-insert k (address net hm i) r hm.ip_to_peer_id,
          refl,
          refl,
        ),
      )
      | inr (q, e) ↦ elim (assign_from_lem net r (suc i) todo hm) [
        | inl (f, g) ↦ inl (
          rw (e, assign_from) f,
          λ j h k. elim (eq_or_above i j h) [
            | inl same ↦ (q, rw (sym same) e)
            | inr above ↦ g j above (omega (arith, k))
          ],
        )
        | inr (x, f, g, h) ↦ inr (x, rw (e, assign_from) f, g, h)
      ]
    ]

-- `AssignIP` has three outcomes. A peer with an address gets it again, and nothing changes. Another
-- peer gets an address that no peer had, and no other peer's address changes. It fails only if each of
-- the 253 addresses from 127.0.x.2 to 127.0.x.254 belongs to a peer.
pub assign_ip_lem :
    (net : Net) (r : Text) (hm : HostManager)
    → ((ip : Text) × (lookup r hm.peer_ips ≡ some ip) × (assign_ip net r hm ≡ some (hm, ip)))
      ⊎ ((lookup r hm.peer_ips ≡ none)
          × (x : HostManager × Text) × (assign_ip net r hm ≡ some x)
          × (lookup x.1 hm.ip_to_peer_id ≡ none)
          × Assigned hm r x)
      ⊎ ((assign_ip net r hm ≡ none)
          × ((j : ℕ)
              → 2 ≤ j
              → j < 255
              → (q : Text) × (lookup (address net hm j) hm.ip_to_peer_id ≡ some q)))
unfolding assign_ip
assign_ip_lem net r hm = elim (Option-cases (lookup r hm.peer_ips)) [
  | inr (ip, e) ↦ inl (ip, e, rw (e, assign_ip) refl)
  | inl e ↦ elim (assign_from_lem net r 2 253 hm) [
    | inl (f, g) ↦ inr (inr (rw (e, assign_ip) f, g))
    | inr (x, f, g, h) ↦ inr (inl (e, x, rw (e, assign_ip) f, g, h))
  ]
]

-- Giving a peer without an address one that no peer has keeps the tables inverse.
Assigned-IsAddressed :
    (hm : HostManager) (r : Text) (x : HostManager × Text)
    → r ≢ []
    → lookup r hm.peer_ips ≡ none
    → lookup x.1 hm.ip_to_peer_id ≡ none
    → Assigned hm r x
    → IsAddressed hm
    → IsAddressed x.0
Assigned-IsAddressed hm r (hm', ip) n e f (to, back, _, _) v = record {
  forward = λ k a h.
      ground (arith, to k, back a, text_eq_iff r k, text_eq_iff ip a, v.forward k a, e, f, h);
  backward = λ k a h.
      ground (arith, to k, back a, text_eq_iff r k, text_eq_iff ip a, v.backward k a, e, f, h);
  named = ground (arith, to [], text_eq_iff r [], n, v.named);
}

abbrev Given : Text → HostManager × Text → Type 0
Given r x = IsAddressed x.0 × (lookup r x.0.peer_ips ≡ some x.1)

-- `AssignIP` keeps addresses and peers one to one.
pub assign_ip-IsAddressed :
    (net : Net) (r : Text) (hm : HostManager)
    → r ≢ []
    → IsAddressed hm
    → (x : HostManager × Text) → assign_ip net r hm ≡ some x
    → IsAddressed x.0 × (lookup r x.0.peer_ips ≡ some x.1)
assign_ip-IsAddressed net r hm n v x e = elim (assign_ip_lem net r hm) [
  | inl (ip, f, g) ↦ let same : (hm, ip) ≡ x = cc (e, g) in subst (Given r) same (v, f)
  | inr (inl (f, y, g, h, k)) ↦
      let equal : y ≡ x = cc (e, g) in
      subst (Given r) equal
        (Assigned-IsAddressed hm r y n f h k v, ground (arith, k.0 r, text_eq_iff r r))
  | inr (inr (f, _)) ↦ absurd (cc (e, f))
]

pub new_manager-IsAddressed : (ip_prefix : List ℕ) → IsAddressed (new_manager ip_prefix)
unfolding new_manager lookup
new_manager-IsAddressed ip_prefix = record {
  forward = λ r ip h. absurd (cc h);
  backward = λ r ip h. absurd (cc h);
  named = refl;
}

-- The tables behind `StopHost`, for the peer that has the address, or else for the empty name.
stop_host-tables :
    (host : ℕ) (ip r : Text) (hm : HostManager)
    → text_or_empty (lookup ip hm.ip_to_peer_id) ≡ r
    → ((k : Text)
        → lookup k (stop_host host ip hm).peer_ips
          ≡ (if r == k then none else lookup k hm.peer_ips))
      × ((k : Text)
          → lookup k (stop_host host ip hm).ip_to_peer_id
            ≡ (if ip == k then none else lookup k hm.ip_to_peer_id))
      × (lookup ip (stop_host host ip hm).hosts ≡ none)
unfolding stop_host
stop_host-tables host ip r hm e = (
  λ k. rw e (lookup-delete k r hm.peer_ips),
  λ k. lookup-delete k ip hm.ip_to_peer_id,
  lookup-delete_self ip hm.hosts,
)

-- `StopHost` frees the address, whatever the host: the peer that had the address has none, no other
-- peer's address changes, and addresses and peers stay one to one.
pub stop_host_lem :
    (host : ℕ) (ip : Text) (hm : HostManager)
    → IsAddressed hm
    → IsAddressed (stop_host host ip hm)
      × (lookup ip (stop_host host ip hm).ip_to_peer_id ≡ none)
      × (lookup ip (stop_host host ip hm).hosts ≡ none)
      × ((r a : Text)
          → a ≢ ip
          → lookup r hm.peer_ips ≡ some a
          → lookup r (stop_host host ip hm).peer_ips ≡ some a)
stop_host_lem host ip hm v = elim (Option-cases (lookup ip hm.ip_to_peer_id)) [
  | inl e ↦
      let (to, back, gone) = stop_host-tables host ip [] hm (rw e refl) in
      (
        record {
          forward = λ k a h.
              ground (arith, to k, back a, text_eq_iff [] k, text_eq_iff ip a, v.forward k a, e, h);
          backward = λ k a h. ground (
            arith,
            to k,
            back a,
            text_eq_iff [] k,
            text_eq_iff ip a,
            v.backward k a,
            v.named,
            e,
            h,
          );
          named = ground (arith, to [], v.named);
        },
        ground (arith, back ip, text_eq_iff ip ip),
        gone,
        λ k a n h. ground (arith, to k, text_eq_iff [] k, v.named, h),
      )
  | inr (r, e) ↦
      let (to, back, gone) = stop_host-tables host ip r hm (rw e refl) in
      (
        record {
          forward = λ k a h. ground (
            arith,
            to k,
            back a,
            text_eq_iff r k,
            text_eq_iff ip a,
            v.forward k a,
            v.forward r ip,
            v.backward r ip,
            e,
            h,
          );
          backward = λ k a h. ground (
            arith,
            to k,
            back a,
            text_eq_iff r k,
            text_eq_iff ip a,
            v.backward k a,
            v.backward r ip,
            e,
            h,
          );
          named = ground (arith, to [], v.named);
        },
        ground (arith, back ip, text_eq_iff ip ip),
        gone,
        λ k a n h. ground (arith, to k, text_eq_iff r k, v.backward r ip, e, n, h),
      )
]
