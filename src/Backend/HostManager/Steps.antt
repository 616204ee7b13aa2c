-- ===== src/Backend/HostManager/Steps.antt =====
-- The operations in any order, as the packet router uses them.
use gladiator.Prelude.{
  ℕ, ◌+◌, ltb, ◌≡◌, ◌≢◌, refl, subst, ap, ◌∙◌, inl, inr, Option, some, List, [], Text, text_Eq,
  text_eq_iff, arith, Option-cases,
}
use gladiator.Prelude.Maps.{lookup, lookup-insert}
use gladiator.Backend.HostManager.{
  FakeHost, HostManager, Net, Started, running, new_manager, assign_ip, stop_host, stop_all,
  remove_by_ip, remove_by_remote_id, cleanup_inactive, set_host, start_guest, start_host,
}
use gladiator.Backend.HostManager.Addresses.{
  IsAddressed, stop_host_lem, assign_ip-IsAddressed, new_manager-IsAddressed, IsAddressed-tables,
}
use gladiator.Backend.HostManager.Hosts.{stop_where-IsAddressed, remove_by_ip_lem}
use gladiator.Backend.HostManager.Starting.{Ends, start_guest_lem, start_host_lem}

remove_by_remote_id-IsAddressed :
    (r : Text) (hm : HostManager) → IsAddressed hm → IsAddressed (remove_by_remote_id r hm)
unfolding remove_by_remote_id
remove_by_remote_id-IsAddressed r hm v = elim (Option-cases (lookup r hm.peer_ips)) [
  | inl e ↦ rw (e, remove_by_remote_id) v
  | inr (ip, e) ↦ elim (Option-cases (lookup ip hm.hosts)) [
    | inl f ↦ rw (e, f, remove_by_remote_id) v
    | inr (host, f) ↦ rw (e, f, remove_by_remote_id) (stop_host_lem host ip hm v).0
  ]
]

-- `SetHost` at the address that the peer has already.
pub set_host-IsAddressed :
    (ip r : Text) (host : ℕ) (hm : HostManager)
    → lookup r hm.peer_ips ≡ some ip
    → IsAddressed hm
    → IsAddressed (set_host ip r host hm)
unfolding set_host
set_host-IsAddressed ip r host hm e v =
    IsAddressed-tables hm (set_host ip r host hm)
      (λ k. lookup-insert k r ip hm.peer_ips ∙ ground (arith, text_eq_iff r k, e))
      (λ k.
        lookup-insert k ip r hm.ip_to_peer_id ∙ ground (arith, text_eq_iff ip k, v.forward r ip, e))
      v

cleanup_inactive-IsAddressed :
    (now timeout : ℕ) (hm : HostManager)
    → IsAddressed hm
    → IsAddressed (cleanup_inactive now timeout hm)
unfolding cleanup_inactive
cleanup_inactive-IsAddressed now timeout hm v =
    stop_where-IsAddressed (λ ip host. ltb (now + timeout) host.last_seen) hm.hosts hm v

pub stop_all-IsAddressed : (hm : HostManager) → IsAddressed (stop_all hm)
unfolding stop_all lookup
stop_all-IsAddressed hm = record {
  forward = λ r ip h. absurd (cc h);
  backward = λ r ip h. absurd (cc h);
  named = refl;
}

-- A start leaves the tables of addresses alone.
Ends-IsAddressed :
    (Why Panic Runs : Type 0) (r ip : Text) (fake : FakeHost) (hm hm' : HostManager) (host : ℕ)
    (s : Started)
    → s ≡ running hm' host
    → Ends Why Panic Runs r ip fake hm s
    → IsAddressed hm
    → IsAddressed hm'
Ends-IsAddressed Why Panic Runs r ip fake hm hm' host s e h v =
    let (ready, registered) = subst (Ends Why Panic Runs r ip fake hm) e h in
    let (free, at, hosts, peers, to, back) = registered in
    IsAddressed-tables hm hm' (λ k. ap (lookup k) to) (λ k. ap (lookup k) back) v

-- One operation. A peer has a name, and `SetHost` is called for the address that `AssignIP` gave.
pub data Step (net : Net) : HostManager → HostManager → Type 0 where
  assigns :
      (hm : HostManager) (r : Text)
      → r ≢ []
      → (x : HostManager × Text) → assign_ip net r hm ≡ some x
      → Step net hm x.0
  starts_guest :
      (hm : HostManager) (r ip : Text) (tcp_port udp_port : ℕ) (tcp udp : Option ℕ) (now : ℕ)
      {hm' : HostManager} {host : ℕ}
      → start_guest net r ip tcp_port udp_port tcp udp now hm ≡ running hm' host
      → Step net hm hm'
  starts_host :
      (hm : HostManager) (r ip : Text) (tcp_port udp_port : ℕ) (tcp udp : Option ℕ) (now : ℕ)
      {hm' : HostManager} {host : ℕ}
      → start_host net r ip tcp_port udp_port tcp udp now hm ≡ running hm' host
      → Step net hm hm'
  sets_host :
      (hm : HostManager) (ip r : Text) (host : ℕ)
      → lookup r hm.peer_ips ≡ some ip
      → Step net hm (set_host ip r host hm)
  stops : (hm : HostManager) (host : ℕ) (ip : Text) → Step net hm (stop_host host ip hm)
  removes_by_ip : (hm : HostManager) (prefix : Text) → Step net hm (remove_by_ip prefix hm)
  removes_by_remote_id : (hm : HostManager) (r : Text) → Step net hm (remove_by_remote_id r hm)
  cleans_up : (hm : HostManager) (now timeout : ℕ) → Step net hm (cleanup_inactive now timeout hm)
  stops_all : (hm : HostManager) → Step net hm (stop_all hm)

pub data Reach (net : Net) (hm : HostManager) : HostManager → Type 0 where
  here : Reach net hm hm
  next_step : {t u : HostManager} → Reach net hm t → Step net t u → Reach net hm u

Step-IsAddressed :
    (net : Net) {hm hm' : HostManager} → Step net hm hm' → IsAddressed hm → IsAddressed hm'
Step-IsAddressed net (assigns hm r n x e) v = (assign_ip-IsAddressed net r hm n v x e).0
Step-IsAddressed net (starts_guest hm r ip tcp_port udp_port tcp udp now e) v =
    Ends-IsAddressed _ _ _ r ip _ hm _ _ _ e
      (start_guest_lem net r ip tcp_port udp_port tcp udp now hm) v
Step-IsAddressed net (starts_host hm r ip tcp_port udp_port tcp udp now e) v =
    Ends-IsAddressed _ _ _ r ip _ hm _ _ _ e
      (start_host_lem net r ip tcp_port udp_port tcp udp now hm) v
Step-IsAddressed net (sets_host hm ip r host e) v = set_host-IsAddressed ip r host hm e v
Step-IsAddressed net (stops hm host ip) v = (stop_host_lem host ip hm v).0
Step-IsAddressed net (removes_by_ip hm prefix) v = (remove_by_ip_lem prefix hm v).0
Step-IsAddressed net (removes_by_remote_id hm r) v = remove_by_remote_id-IsAddressed r hm v
Step-IsAddressed net (cleans_up hm now timeout) v = cleanup_inactive-IsAddressed now timeout hm v
Step-IsAddressed net (stops_all hm) v = stop_all-IsAddressed hm

-- From a new manager on, whatever operations follow in whatever order, where `AssignIP` is asked for
-- peers with a name and `SetHost` is called at the address that the peer has: a peer has an address
-- exactly if the address has the peer, so that no two peers share one.
pub Reach-IsAddressed :
    (net : Net) (ip_prefix : List ℕ) {hm : HostManager}
    → Reach net (new_manager ip_prefix) hm
    → IsAddressed hm
Reach-IsAddressed net ip_prefix here = new_manager-IsAddressed ip_prefix
Reach-IsAddressed net ip_prefix (next_step r s) =
    Step-IsAddressed net s (Reach-IsAddressed net ip_prefix r)
