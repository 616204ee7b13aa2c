-- ===== src/Backend/RelayProxy/Kept.antt =====
-- The parts of the router's operations that start and stop hosts, or only send.
use gladiator.Backend.RelayProxy.Rooms.{close}
use gladiator.Prelude.{
  ℕ, ◌≡◌, ◌≢◌, refl, subst, inl, inr, Bool, true, false, some, List, [], ◌∷◌, Text, text_Eq, arith,
  if◌then◌else◌, Option-cases, if_rule, option_rule, IfSome, ◌++◌, codes,
}
use gladiator.Prelude.Maps.{Map, lookup, insert}
use gladiator.Packet.Encoder.{host_migration, new_host_switch}
use gladiator.Console.Relay.{RelayPacket}
use gladiator.Backend.HostManager.{HostManager, running, dial, listen, stop_host}
use gladiator.Backend.HostManager.Starting.{Made, start_guest-Made, start_host-Made, started_rule}
use gladiator.Backend.Session.{outcome_rule, send_to_game}
use gladiator.Backend.RelayProxy.{
  PacketRouter, World, Route, routed, reset, send_packet, own_packet, connect, ping,
}
use gladiator.Backend.RelayProxy.Router.{
  unbind, rebind, localhost, become_host, follow_host, guest_started, host_started, keys,
}
use gladiator.Backend.RelayProxy.Routes.{
  IsRouted, Made-IsRouted, stop_host-IsRouted, stop_all-IsRouted,
}

-- The router's hosts are routed.
abbrev pub Routed : PacketRouter → Type 0
Routed r = IsRouted r.manager r.routes

abbrev pub RoutedBehind : {A : Type 0} → PacketRouter × A → Type 0
RoutedBehind x = Routed x.0

-- What changes neither the manager nor the routes.
module _ (w : World) where
  send_packet-Routed :
      (pkt : RelayPacket) (r : PacketRouter) → Routed r → IfSome Routed (send_packet w pkt r)
  unfolding send_packet
  send_packet-Routed pkt r v = elim (Option-cases r.stream) [
    | inl e ↦ rw (e, send_packet) tt
    | inr (stream, e) ↦ elim (Option-cases (w.marshal (record pkt { from_id = r.self_id }))) [
      | inl f ↦ rw (e, f, send_packet) tt
      | inr (data_, f) ↦
          rw (e, f, send_packet)
            (if_rule (IfSome Routed) (w.write_stream r stream (data_ ++ (10 ∷ []))) v tt)
    ]
  ]

  pub sent :
      (pkt : RelayPacket) (r : PacketRouter)
      → Routed r
      → (r' : PacketRouter) → send_packet w pkt r ≡ some r'
      → Routed r'
  sent pkt r v r' e = subst (IfSome Routed) e (send_packet-Routed pkt r v)

  reset_if-Routed : (r : PacketRouter) → Routed r → IfSome Routed (reset r)
  unfolding reset
  reset_if-Routed r v =
      let fresh = stop_all-IsRouted r.manager r.routes v in
      option_rule (IfSome Routed) r.relay_conn fresh
        (λ conn e. option_rule (IfSome Routed) r.stream tt (λ stream f. fresh))

  pub reset-Routed : (r r' : PacketRouter) → Routed r → reset r ≡ some r' → Routed r'
  reset-Routed r r' v e = subst (IfSome Routed) e (reset_if-Routed r v)

  pub connect-Routed :
      (room_id : Text) (r : PacketRouter) → Routed r → Routed (connect w room_id r).0
  unfolding connect
  connect-Routed room_id r v = option_rule RoutedBehind (w.dial_relay r) v (λ conn e.
      let dialled = record r { relay_conn = some conn } in
      option_rule RoutedBehind (w.open_stream dialled) v (λ stream f.
        let opened : PacketRouter = record dialled { stream = some stream } in
        let pkt : RelayPacket = own_packet (codes "join") room_id [] in
        option_rule RoutedBehind (send_packet w pkt opened) v
          (λ joined g. sent pkt opened v joined g)))

  pub ping-Routed : (r : PacketRouter) → Routed r → Routed (ping w r).0
  unfolding ping
  ping-Routed r v =
      let pkt : RelayPacket = own_packet (codes "ping") [] [] in
      option_rule RoutedBehind (send_packet w pkt r)
        (option_rule RoutedBehind (reset r) v (λ r' e. reset-Routed r r' v e))
        (λ pinged e. sent pkt r v pinged e)

  pub close-Routed : (r : PacketRouter) → Routed r → Routed (close r).0
  unfolding close
  close-Routed r v = option_rule RoutedBehind (reset r) v (λ r' e. reset-Routed r r' v e)

  -- The hosts that the router starts.
  pub guest-Routed :
      (peer ip : Text) (tcp_port : ℕ) (route : Route) (hm : HostManager) (r : PacketRouter)
      → route.to_id ≡ peer
      → (route.tcp ≡ true → tcp_port ≢ 0)
      → IsRouted hm r.routes
      → (hm' : HostManager) (host : ℕ) → guest_started w peer ip tcp_port 6113 hm ≡ running hm' host
      → Routed (routed route host hm' r)
        × (lookup peer hm'.peer_hosts ≡ some host)
        × (hm'.peer_ips ≡ hm.peer_ips)
        × (hm'.ip_to_peer_id ≡ hm.ip_to_peer_id)
  guest-Routed peer ip tcp_port route hm r to st v hm' host e =
      Made-IsRouted dial peer ip tcp_port 6113 (w.dial_tcp hm) (w.dial_udp hm) (w.now hm) hm hm'
        host r.routes route to (λ h. absurd (omega (arith, h))) st v
        (subst (Made dial peer ip tcp_port 6113 (w.dial_tcp hm) (w.dial_udp hm) (w.now hm) hm) e (
          start_guest-Made w.net peer ip tcp_port 6113 (w.dial_tcp hm) (w.dial_udp hm) (w.now hm)
            hm))

  pub host-Routed :
      (peer ip : Text) (tcp_port : ℕ) (route : Route) (hm : HostManager) (r : PacketRouter)
      → route.to_id ≡ peer
      → (route.tcp ≡ true → tcp_port ≢ 0)
      → IsRouted hm r.routes
      → (hm' : HostManager) (host : ℕ) → host_started w peer ip tcp_port 6113 hm ≡ running hm' host
      → Routed (routed route host hm' r)
  host-Routed peer ip tcp_port route hm r to st v hm' host e =
      (Made-IsRouted listen peer ip tcp_port 6113 (w.listen_tcp hm ip) (w.listen_udp hm ip)
        (w.now hm) hm hm' host r.routes route to (λ h. absurd (omega (arith, h))) st v
        (subst
          (Made listen peer ip tcp_port 6113 (w.listen_tcp hm ip) (w.listen_udp hm ip) (w.now hm)
            hm)
          e
          (start_host-Made w.net peer ip tcp_port 6113 (w.listen_tcp hm ip) (w.listen_udp hm ip)
            (w.now hm) hm))).0

  unbind-IsRouted :
      (peers : List Text) (hm : HostManager) (rebind_hosts : Map Text Text) (routes : ℕ → Route)
      → IsRouted hm routes
      → IsRouted (unbind peers hm rebind_hosts).0 routes
  unfolding unbind
  unbind-IsRouted [] hm rebind_hosts routes v = v
  unbind-IsRouted (p ∷ peers) hm rebind_hosts routes v =
      option_rule (λ (x : HostManager × Map Text Text). IsRouted x.0 routes)
        (lookup p hm.peer_hosts) (unbind-IsRouted peers hm rebind_hosts routes v)
        (λ host e.
          unbind-IsRouted peers (stop_host host (hm.heap host).ip hm)
            (insert p (hm.heap host).ip rebind_hosts) routes
            (stop_host-IsRouted host (hm.heap host).ip hm routes v))

  pub nonzero : ◌≢◌ {A = ℕ} 6114 0
  nonzero h = absurd (omega (arith, h))

  pub tcp_port : (b : Bool) → b ≡ true → ◌≢◌ {A = ℕ} (if b then 6114 else 0) 0
  tcp_port true h k = absurd (omega (arith, k))
  tcp_port false h k = absurd (cc h)

  rebind-Routed :
      (room_id : Text) (peers : Map Text Text) (r : PacketRouter)
      → Routed r
      → Routed (rebind w room_id peers r).0
  unfolding rebind
  rebind-Routed room_id [] r v = v
  rebind-Routed room_id ((p, ip) ∷ peers) r v =
      started_rule RoutedBehind (guest_started w p ip 6114 6113 r.manager) v v (λ hm host e.
        rebind-Routed room_id peers
          (routed (record { room_id = room_id; to_id = p; tcp = true }) host hm r)
          (guest-Routed p ip 6114 _ r.manager r refl (λ t. nonzero) v hm host e).0)

  pub become_host-Routed : (r : PacketRouter) → Routed r → Routed (become_host w r).0
  unfolding become_host
  become_host-Routed r v =
      outcome_rule RoutedBehind
        (send_to_game w.services host_migration (new_host_switch false localhost) r.session).1
        (rebind-Routed _ _ _ (unbind-IsRouted (keys r.manager.peer_hosts) r.manager [] r.routes v))
        v v

  pub follow_host-Routed :
      (new_host_id room_id : Text) (r : PacketRouter)
      → Routed r
      → Routed (follow_host w new_host_id room_id r).0
  unfolding follow_host
  follow_host-Routed p room_id r v =
      option_rule RoutedBehind (lookup p r.manager.peer_ips) v (λ ip e.
        option_rule RoutedBehind (lookup ip r.manager.hosts) v (λ host f.
          let stopped = stop_host-IsRouted host ip r.manager r.routes v in
          started_rule RoutedBehind (host_started w p ip 6114 6113 (stop_host host ip r.manager))
            stopped stopped
            (λ hm host' g.
              host-Routed p ip 6114 _ (stop_host host ip r.manager) r refl (λ t. nonzero) stopped hm
                host' g)))
