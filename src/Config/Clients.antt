-- ===== src/Config/Clients.antt =====
-- loadClient, src/DiscoveryServerManager.cpp. Descriptors of transports are values: the code copies
-- the one that it changes, since other participants may share it.
use discovery_server.Prelude.{
  ℕ, ◌%◌, Bool, true, false, not, ◌&&◌, ◌||◌, Option, none, some, List, [], ◌∷◌, ◌++◌, String,
  str_eq, if◌then◌else◌, is_empty, bind_option,
}
use discovery_server.Prelude.Int.{ℤ}
use discovery_server.Outcome.{Outcome, done, aborted}
use discovery_server.Dds.{Dds, Protocol, client, super_client, Transport, tcp_v4, tcp_v6, not_tcp}
use discovery_server.Events.{as_client}
use discovery_server.Ids.{s_listening_port}
use discovery_server.Xml.{Xml}
use discovery_server.Config.{Loading, profile_name}
use discovery_server.Config.Participants.{load_with_qos, with_name}

abbrev has_v4 : List Transport → Bool
has_v4 [] = false
has_v4 (tcp_v4 ports wan ∷ ts) = true
has_v4 (tcp_v6 ports ∷ ts) = has_v4 ts
has_v4 (not_tcp n ∷ ts) = has_v4 ts

abbrev has_v6 : List Transport → Bool
has_v6 [] = false
has_v6 (tcp_v4 ports wan ∷ ts) = has_v6 ts
has_v6 (tcp_v6 ports ∷ ts) = true
has_v6 (not_tcp n ∷ ts) = has_v6 ts

-- The port of a transport that has none, as a uint16_t.
unfoldable pub with_port : ℕ → List ℕ → List ℕ
with_port listening_port ports = if is_empty ports then listening_port % 65536 ∷ [] else ports

abbrev with_wan : String → Option String → Option String
with_wan address wan = if str_eq address "" then wan else some address

-- The first transport of TCPv4 gets the port, and the address if there is one.
unfoldable pub listen_v4 : String → ℕ → List Transport → List Transport
unfolding with_port
listen_v4 address port [] = []
listen_v4 address port (tcp_v4 ports wan ∷ ts) =
    tcp_v4 (with_port port ports) (with_wan address wan) ∷ ts
listen_v4 address port (tcp_v6 ports ∷ ts) = tcp_v6 ports ∷ listen_v4 address port ts
listen_v4 address port (not_tcp n ∷ ts) = not_tcp n ∷ listen_v4 address port ts

-- The first transport of TCPv6 gets the port.
unfoldable pub listen_v6 : ℕ → List Transport → List Transport
unfolding with_port
listen_v6 port [] = []
listen_v6 port (tcp_v4 ports wan ∷ ts) = tcp_v4 ports wan ∷ listen_v6 port ts
listen_v6 port (tcp_v6 ports ∷ ts) = tcp_v6 (with_port port ports) ∷ ts
listen_v6 port (not_tcp n ∷ ts) = not_tcp n ∷ listen_v6 port ts

-- A new transport where there is none that suits, and else a changed one. An address needs TCPv4.
unfoldable pub listen : String → ℕ → List Transport → List Transport
unfolding listen_v4 listen_v6
listen address port ts =
    let no_address = str_eq address "" in
    if (no_address && (not (has_v4 ts) && not (has_v6 ts))) || (not no_address && not (has_v4 ts))
    then listen_v4 address port (ts ++ tcp_v4 [] none ∷ [])
    else if has_v4 ts
    then listen_v4 address port ts
    else listen_v6 port ts

-- `match_address` is std::regex_match with the expression of an address and a port: its two groups,
-- of which each may be empty. `read_long` is std::stol, which throws where there is no number.
module _ (d : Dds) (ndebug : Bool) (x : Xml) (read_int : String → ℤ)
    (match_address : String → Option (String × String)) (read_long : String → Option ℕ) where
  abbrev is_client_protocol : Protocol → Bool
  is_client_protocol client = true
  is_client_protocol super_client = true
  is_client_protocol other = false

  abbrev udp_if_off : Loading d → d.Qos → d.Qos
  udp_if_off l qos = if l.process.manager.shared_memory_off then d.udp_only qos else qos

  -- What follows the name: the listening port, and then the events and endpoints.
  unfoldable pub load_listening : d.Qos → x.Element → Loading d → Outcome (Loading d)
  unfolding listen load_with_qos
  load_listening qos e l = elim (x.attribute s_listening_port e) [
    | none ↦ load_with_qos d ndebug x read_int as_client (udp_if_off l qos) e l
    | some lp ↦ elim (match_address lp) [
      | none ↦ done l
      | some r ↦ elim (read_long r.1) [
        | none ↦ aborted
        | some port ↦
            let qos' = d.set_user_transports (listen r.0 port (d.user_transports qos)) qos in
            load_with_qos d ndebug x read_int as_client (udp_if_off l qos') e l
      ]
    ]
  ]

  unfoldable pub load_client : x.Element → Loading d → Outcome (Loading d)
  unfolding load_listening with_name
  load_client e l = elim (bind_option (x.attribute profile_name e) d.participant_profile) [
    | none ↦ done l
    | some qos ↦
        if is_client_protocol (d.discovery_protocol qos)
        then load_listening (with_name d ndebug x read_int e qos) e l
        else done l
  ]
