-- ===== src/Backend/HostManager/Hosts.antt =====
-- Starting and stopping fake hosts.
use gladiator.Prelude.{
  List, ◌++◌, ap, ℕ, ◌≡◌, refl, ◌∙◌, Bool, true, false, ◌&&◌, Option, none, some, [], ◌∷◌, Text,
  text_Eq, text_eq_iff, arith, if◌then◌else◌, ◌==◌, if_rule,
}
use gladiator.Packet.Reads.{append_assoc}
use gladiator.Prelude.Maps.{Map, lookup, lookup-delete}
use gladiator.Backend.HostManager.{
  FakeHost, HostManager, proxy_list, stop_host, stop_where, has_prefix, remove_by_ip, is_running,
}
use gladiator.Backend.HostManager.Addresses.{IsAddressed, stop_host_lem}

stop_host-hosts :
    (host : ℕ) (ip k : Text) (hm : HostManager)
    → lookup k (stop_host host ip hm).hosts ≡ (if ip == k then none else lookup k hm.hosts)
unfolding stop_host
stop_host-hosts host ip k hm = lookup-delete k ip hm.hosts

-- A loop that stops hosts by their address stops those and no other.
stop_where-hosts :
    (chosen : Text → Bool) (hosts : Map Text ℕ) (k : Text) (hm : HostManager)
    → lookup k (stop_where (λ ip host. chosen ip) hosts hm).hosts
      ≡ (if chosen k && is_running (lookup k hosts) then none else lookup k hm.hosts)
unfolding stop_where lookup
stop_where-hosts chosen [] k hm = ground arith
stop_where-hosts chosen ((ip, host) ∷ hosts) k hm =
    stop_where-hosts chosen hosts k (if chosen ip then stop_host host ip hm else hm)
    ∙ ground (arith, stopped_if (chosen ip), text_eq_iff ip k)
  where
    stopped_if :
        (b : Bool)
        → lookup k (if b then stop_host host ip hm else hm).hosts
          ≡ (if b && (ip == k) then none else lookup k hm.hosts)
    stopped_if false = refl
    stopped_if true = stop_host-hosts host ip k hm

pub stop_where-IsAddressed :
    (chosen : Text → FakeHost → Bool) (hosts : Map Text ℕ) (hm : HostManager)
    → IsAddressed hm
    → IsAddressed (stop_where chosen hosts hm)
unfolding stop_where
stop_where-IsAddressed chosen [] hm v = v
stop_where-IsAddressed chosen ((ip, host) ∷ hosts) hm v =
    stop_where-IsAddressed chosen hosts _
      (if_rule IsAddressed (chosen ip (hm.heap host)) (stop_host_lem host ip hm v).0 v)

-- The hosts of a table whose address is chosen, and the proxies that they have.
abbrev pub chosen_hosts : (Text → Bool) → Map Text ℕ → List ℕ
chosen_hosts chosen [] = []
chosen_hosts chosen ((ip, host) ∷ hosts) =
    if chosen ip then host ∷ chosen_hosts chosen hosts else chosen_hosts chosen hosts

abbrev pub proxies_of : (ℕ → FakeHost) → List ℕ → List ℕ
proxies_of heap [] = []
proxies_of heap (host ∷ hosts) =
    (proxy_list (heap host).proxy_tcp ++ proxy_list (heap host).proxy_udp) ++ proxies_of heap hosts

append_nil_nat : (xs : List ℕ) → xs ≡ xs ++ []
append_nil_nat [] = refl
append_nil_nat (x ∷ xs) = ap (◌∷◌ x) (append_nil_nat xs)

-- What such a loop stops and closes.
abbrev pub Stops : List ℕ → HostManager → HostManager → Type 0
Stops hosts hm hm' =
    (hm'.stopped ≡ hm.stopped ++ hosts)
    × (hm'.closed ≡ hm.closed ++ proxies_of hm.heap hosts)
    × (hm'.heap ≡ hm.heap)

Stops-cons :
    (host : ℕ) (ip : Text) (hosts : List ℕ) (hm hm' : HostManager)
    → Stops hosts (stop_host host ip hm) hm'
    → Stops (host ∷ hosts) hm hm'
unfolding stop_host
Stops-cons host ip hosts hm hm' (stopped, closed, heap) = (
  stopped ∙ append_assoc hm.stopped (host ∷ []) hosts,
  closed
      ∙ append_assoc hm.closed
          (proxy_list (hm.heap host).proxy_tcp ++ proxy_list (hm.heap host).proxy_udp)
          (proxies_of hm.heap hosts),
  heap,
)

stop_where-Stops :
    (chosen : Text → Bool) (hosts : Map Text ℕ) (hm : HostManager)
    → Stops (chosen_hosts chosen hosts) hm (stop_where (λ ip host. chosen ip) hosts hm)
unfolding stop_where
stop_where-Stops chosen [] hm = (append_nil_nat hm.stopped, append_nil_nat hm.closed, refl)
stop_where-Stops chosen ((ip, host) ∷ hosts) hm =
    either (chosen ip)
      (Stops-cons host ip (chosen_hosts chosen hosts) hm
        (stop_where (λ ip host. chosen ip) hosts (stop_host host ip hm))
        (stop_where-Stops chosen hosts (stop_host host ip hm)))
      (stop_where-Stops chosen hosts hm)
  where
    either :
        (b : Bool)
        → Stops
            (host ∷ chosen_hosts chosen hosts)
            hm
            (stop_where (λ ip host. chosen ip) hosts (stop_host host ip hm))
        → Stops (chosen_hosts chosen hosts) hm (stop_where (λ ip host. chosen ip) hosts hm)
        → Stops
            (if b then host ∷ chosen_hosts chosen hosts else chosen_hosts chosen hosts)
            hm
            (stop_where (λ ip host. chosen ip) hosts (if b then stop_host host ip hm else hm))
    either true h k = h
    either false h k = k

-- `RemoveByIP` stops each host in the table whose address has the prefix and no other: the hosts are cancelled and
-- their proxies closed, in the order of the table, and they leave the table. Addresses and peers stay one to one.
pub remove_by_ip_lem :
    (prefix : Text) (hm : HostManager)
    → IsAddressed hm
    → IsAddressed (remove_by_ip prefix hm)
      × ((k : Text)
          → lookup k (remove_by_ip prefix hm).hosts
            ≡ (if has_prefix k prefix then none else lookup k hm.hosts))
      × ((remove_by_ip prefix hm).stopped
          ≡ hm.stopped ++ chosen_hosts (λ ip. has_prefix ip prefix) hm.hosts)
      × ((remove_by_ip prefix hm).closed
          ≡ hm.closed ++ proxies_of hm.heap (chosen_hosts (λ ip. has_prefix ip prefix) hm.hosts))
unfolding remove_by_ip
remove_by_ip_lem prefix hm v =
    let (stopped, closed, heap) = stop_where-Stops (λ ip. has_prefix ip prefix) hm.hosts hm in
    (
      stop_where-IsAddressed (λ ip host. has_prefix ip prefix) hm.hosts hm v,
      λ k.
          stop_where-hosts (λ ip. has_prefix ip prefix) hm.hosts k hm
          ∙ none_already (has_prefix k prefix) (lookup k hm.hosts),
      stopped,
      closed,
    )
  where
    none_already :
        (b : Bool) (o : Option ℕ)
        → (if b && is_running o then none else o) ≡ (if b then none else o)
    none_already false o = refl
    none_already true none = refl
    none_already true (some p) = refl
