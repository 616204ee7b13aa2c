-- ===== src/Backend/RelayProxy/Joining.antt =====
-- A join of the router, when nothing comes between its parts: the tables of addresses.
use gladiator.Prelude.{
  ℕ, ◌≡◌, ◌≢◌, ap, ◌∙◌, subst, Bool, Option, some, [], Text, text_Eq, if◌then◌else◌, ◌==◌, IfSome,
  option_rule,
}
use gladiator.Prelude.Maps.{lookup}
use gladiator.Backend.Session.{Outcome}
use gladiator.Backend.HostManager.{assign_ip}
use gladiator.Backend.HostManager.Addresses.{IsAddressed, IsAddressed-tables, assign_ip-IsAddressed}
use gladiator.Backend.HostManager.Starting.{Ends, start_guest_lem, started_rule}
use gladiator.Backend.HostManager.Steps.{set_host-IsAddressed}
use gladiator.Backend.RelayProxy.{PacketRouter, World}
use gladiator.Backend.RelayProxy.Router.{
  join_assigned, join_started, join_set, dynamic_join, guest_started,
}

-- The tables correspond, and the peer has the address.
abbrev Held : Text → Text → PacketRouter → Type 0
Held peer ip r = IsAddressed r.manager × (lookup peer r.manager.peer_ips ≡ some ip)

module _ (w : World) (room_id peer : Text) where
  join_assigned-Held :
      (r : PacketRouter)
      → peer ≢ []
      → IsAddressed r.manager
      → IfSome (λ (x : PacketRouter × Text). Held peer x.1 x.0) (join_assigned w peer r)
  unfolding join_assigned
  join_assigned-Held r n v =
      option_rule (IfSome (λ (x : PacketRouter × Text). Held peer x.1 x.0))
        (assign_ip w.net peer r.manager) tt
        (λ x e. assign_ip-IsAddressed w.net peer r.manager n v x e)

  join_started-Held :
      (ip : Text) (is_host : Bool) (r : PacketRouter)
      → Held peer ip r
      → IfSome
          (λ (x : PacketRouter × ℕ). Held peer ip x.0)
          (join_started w room_id peer ip is_host r).0
  unfolding join_started
  join_started-Held ip is_host r (v, at) =
      let port = if is_host then 6114 else 0 in
      let hm = r.manager in
      started_rule
        (λ (x : Option (PacketRouter × ℕ) × Outcome).
          IfSome (λ (y : PacketRouter × ℕ). Held peer ip y.0) x.0)
        (guest_started w peer ip port 6113 hm) tt tt
        (λ hm' host g.
          let (ready, registered) = subst (Ends _ _ _ peer ip _ hm) g (
            start_guest_lem w.net peer ip port 6113 (w.dial_tcp hm) (w.dial_udp hm) (w.now hm)
              hm) in
          let (free, fake, hosts, peers, to, back) = registered in
          (
            IsAddressed-tables hm hm' (λ k. ap (lookup k) to) (λ k. ap (lookup k) back) v,
            ap (lookup peer) to ∙ at,
          ))

  pub dynamic_join-IsAddressed :
      (r : PacketRouter)
      → peer ≢ []
      → IsAddressed r.manager
      → IsAddressed (dynamic_join w room_id peer r).0.manager
  unfolding dynamic_join join_set
  dynamic_join-IsAddressed r n v =
      let K : PacketRouter × Outcome → Type 0 = λ x. IsAddressed x.0.manager in
      let is_host = r.self_id == r.current_host_id in
      option_rule K (join_assigned w peer r) v (λ x e.
        let held =
          subst (IfSome (λ (y : PacketRouter × Text). Held peer y.1 y.0)) e
            (join_assigned-Held r n v) in
        option_rule K (join_started w room_id peer x.1 is_host x.0).0 held.0 (λ y g.
          let (kept, at) =
            subst (IfSome (λ (z : PacketRouter × ℕ). Held peer x.1 z.0)) g
              (join_started-Held x.1 is_host x.0 held) in
          set_host-IsAddressed x.1 peer y.1 y.0.manager at kept))
