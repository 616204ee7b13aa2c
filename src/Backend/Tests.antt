-- ===== src/Backend/Tests.antt =====
-- Requests, addresses and hosts.
use gladiator.Prelude.{
  ℕ, ◌<◌, ◌≤◌, ◌≡◌, ◌≢◌, refl, ◌⊎◌, none, some, [], ◌∷◌, ◌++◌, Text, arith, if◌then◌else◌, ltb,
  true, text_Eq,
}
use gladiator.Prelude.Maps.{lookup, insert}
use gladiator.Prelude.Buffers.{bytes_32, NoNull}
use gladiator.Model.Character.{to_bytes}
use gladiator.Model.Tests.{knight, knight-IsCharacterInfo}
use gladiator.Backend.Requests.Characters.{parse_create_character}
use gladiator.Backend.Requests.Games.{
  parse_create_game, RankingRequestData, new_ranking_request, parse_ranking,
}
use gladiator.Backend.Requests.Bytes.{terminated, parse_create_character-print}
use gladiator.Backend.Requests.GameBytes.{
  parse_create_game-print, parse_ranking-new_ranking_request,
}
use gladiator.Backend.HostManager.{
  HostManager, listen, dial, Net, address, new_manager, assign_ip, stop_host, remove_by_ip,
  has_prefix, start_guest, start_host,
}
use gladiator.Backend.HostManager.Addresses.{
  IsAddressed, Assigned, assign_ip_lem, assign_ip-IsAddressed, stop_host_lem,
  new_manager-IsAddressed,
}
use gladiator.Backend.HostManager.Hosts.{remove_by_ip_lem, chosen_hosts, proxies_of}
use gladiator.Backend.HostManager.Starting.{
  Refusal, IsAllowed, new_host, Ends, start_host_lem, start_guest_lem,
}
use gladiator.Backend.HostManager.Steps.{Reach, here, next_step, assigns, Reach-IsAddressed}

-- The names "ab" and "c".
abbrev ab : Text
ab = 97 ∷ 98 ∷ []

abbrev c : Text
c = 99 ∷ []

ab_ne : NoNull ab
ab_ne = (λ h. absurd (omega (arith, h)), (λ h. absurd (omega (arith, h)), tt))

c_ne : NoNull c
c_ne = (λ h. absurd (omega (arith, h)), tt)

parse_create_character-print_example :
    parse_create_character
      ((to_bytes knight ++ ([] ++ (terminated ab ++ (terminated c ++ [])))) ++ [])
    ≡ some
        (record { info = to_bytes knight; parsed_info = knight; username = ab; character_name = c })
parse_create_character-print_example =
    parse_create_character-print knight ab c [] knight-IsCharacterInfo ab_ne c_ne

parse_create_game-print_example :
    parse_create_game
      ((bytes_32 0 ++ (bytes_32 6 ++ (terminated ab ++ (terminated c ++ [])))) ++ [])
    ≡ (if ltb 5 6
        then none
        else some (record { state = 0; map_id = 6; room_name = ab; password = c }))
parse_create_game-print_example =
    parse_create_game-print 0 6 ab c [] (omega arith) (omega arith) ab_ne c_ne

abbrev ranking : RankingRequestData
ranking = record { class_type = 3; offset = 300; username = ab; character_name = c }

parse_ranking-new_ranking_request_example :
    parse_ranking (new_ranking_request ranking) ≡ some ranking
parse_ranking-new_ranking_request_example =
    parse_ranking-new_ranking_request ranking (omega arith) (omega arith) ab_ne c_ne

-- Addresses are printed byte by byte, and every address parses.
abbrev plain : Net
plain = record { ip_string = λ bytes. bytes; parses = λ t. true }

-- The manager of 127.0.1.x.
abbrev fresh : HostManager
fresh = new_manager (127 ∷ 0 ∷ 1 ∷ 0 ∷ [])

fresh-IsAddressed : IsAddressed fresh
fresh-IsAddressed = new_manager-IsAddressed (127 ∷ 0 ∷ 1 ∷ 0 ∷ [])

assign_ip_lem_example :
    ((ip : Text) × (lookup ab fresh.peer_ips ≡ some ip)
      × (assign_ip plain ab fresh ≡ some (fresh, ip)))
    ⊎ ((lookup ab fresh.peer_ips ≡ none)
        × (x : HostManager × Text) × (assign_ip plain ab fresh ≡ some x)
        × (lookup x.1 fresh.ip_to_peer_id ≡ none)
        × Assigned fresh ab x)
    ⊎ ((assign_ip plain ab fresh ≡ none)
        × ((j : ℕ)
            → 2 ≤ j
            → j < 255
            → (q : Text) × (lookup (address plain fresh j) fresh.ip_to_peer_id ≡ some q)))
assign_ip_lem_example = assign_ip_lem plain ab fresh

-- The manager behind the first address, 127.0.1.2.
abbrev first_ip : Text
first_ip = 127 ∷ 0 ∷ 1 ∷ 2 ∷ []

abbrev one_peer : HostManager
one_peer = record fresh { peer_ips = (ab, first_ip) ∷ []; ip_to_peer_id = (first_ip, ab) ∷ [] }

one_peer_assigned : assign_ip plain ab fresh ≡ some (one_peer, first_ip)
unfolding assign_ip new_manager lookup insert
one_peer_assigned = refl

one_peer_reached : Reach plain fresh one_peer
one_peer_reached =
    next_step here (assigns fresh ab (λ h. absurd (cc h)) (one_peer, first_ip) one_peer_assigned)

one_peer-IsAddressed : IsAddressed one_peer
one_peer-IsAddressed =
    (assign_ip-IsAddressed plain ab fresh (λ h. absurd (cc h)) fresh-IsAddressed
      (one_peer, first_ip) one_peer_assigned).0

Reach-IsAddressed_example : IsAddressed one_peer
Reach-IsAddressed_example = Reach-IsAddressed plain (127 ∷ 0 ∷ 1 ∷ 0 ∷ []) one_peer_reached

stop_host_lem_example :
    IsAddressed (stop_host 0 first_ip one_peer)
    × (lookup first_ip (stop_host 0 first_ip one_peer).ip_to_peer_id ≡ none)
    × (lookup first_ip (stop_host 0 first_ip one_peer).hosts ≡ none)
    × ((r a : Text)
        → a ≢ first_ip
        → lookup r one_peer.peer_ips ≡ some a
        → lookup r (stop_host 0 first_ip one_peer).peer_ips ≡ some a)
stop_host_lem_example = stop_host_lem 0 first_ip one_peer one_peer-IsAddressed

remove_by_ip_lem_example :
    IsAddressed (remove_by_ip (127 ∷ []) one_peer)
    × ((k : Text)
        → lookup k (remove_by_ip (127 ∷ []) one_peer).hosts
          ≡ (if has_prefix k (127 ∷ []) then none else lookup k one_peer.hosts))
    × ((remove_by_ip (127 ∷ []) one_peer).stopped
        ≡ one_peer.stopped ++ chosen_hosts (λ ip. has_prefix ip (127 ∷ [])) one_peer.hosts)
    × ((remove_by_ip (127 ∷ []) one_peer).closed
        ≡ one_peer.closed
          ++ proxies_of one_peer.heap
              (chosen_hosts (λ ip. has_prefix ip (127 ∷ [])) one_peer.hosts))
remove_by_ip_lem_example = remove_by_ip_lem (127 ∷ []) one_peer one_peer-IsAddressed

start_host_lem_example :
    Ends
      (Refusal plain first_ip 6114 6113 (some 1) (some 2) one_peer)
      ⊥
      (IsAllowed plain first_ip 6114 6113 (some 1) (some 2) one_peer)
      ab
      first_ip
      (new_host listen first_ip (some 1) (some 2) 50)
      one_peer
      (start_host plain ab first_ip 6114 6113 (some 1) (some 2) 50 one_peer)
start_host_lem_example = start_host_lem plain ab first_ip 6114 6113 (some 1) (some 2) 50 one_peer

start_guest_lem_example :
    Ends
      (Refusal plain first_ip 0 6113 none (some 2) one_peer)
      (IsAllowed plain first_ip 0 6113 none (some 2) one_peer × (◌≡◌ {A = ℕ} 6113 0))
      (IsAllowed plain first_ip 0 6113 none (some 2) one_peer × (◌<◌ 0 6113))
      ab
      first_ip
      (new_host dial first_ip none (some 2) 50)
      one_peer
      (start_guest plain ab first_ip 0 6113 none (some 2) 50 one_peer)
start_guest_lem_example = start_guest_lem plain ab first_ip 0 6113 none (some 2) 50 one_peer
