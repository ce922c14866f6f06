-- ===== src/Client/Options/Laws.antt =====
-- The parameters that a complete command line of the client gives.
use bomberrobots.Base.{
  ℕ, ◌≡◌, refl, Bool, true, false, List, ◌∷◌, ◌++◌, Option, some, ok, exited, or_fail, ◌>>=◌,
}
use bomberrobots.Messages.{Bytes}
use bomberrobots.Client.Address.{address_parts_lem, NoColon}
use bomberrobots.Client.Options.{
  CommandLine, parse_address_udp, parse_address_tcp, parse_parameters,
}

-- A name or a number of a host, and a port.
pub record Place : Type 0 where
  pub host : Bytes
  pub service : Bytes

abbrev pub address_text : Place → Bytes
address_text a = a.host ++ b':' ∷ a.service

-- Each option was given, and nothing threw.
abbrev pub given : Place → Bytes → ℕ → Place → CommandLine
given gui name port server = record {
  failed = false;
  help = false;
  gui_address = some (address_text gui);
  player_name = some name;
  port = some port;
  server_address = some (address_text server);
}

-- A port that the client takes: it has no colon.
abbrev pub IsService : (Bytes → Bool) → Bytes → Type 0
IsService is_port service = NoColon service × (is_port service ≡ true)

module _ {Endpoint : Type 0} (is_port : Bytes → Bool)
    (resolve_udp : Bytes → Bytes → Option Endpoint)
    (resolve_tcp : Bytes → Bytes → List Endpoint) where
  parse_address_udp_lem :
      (a : Place)
      → IsService is_port a.service
      → parse_address_udp is_port resolve_udp resolve_tcp (address_text a)
        ≡ or_fail (resolve_udp a.host a.service) exited
  unfolding parse_address_udp
  parse_address_udp_lem a (plain, port) =
      rw (address_parts_lem is_port a.host a.service plain) (rw port refl)

  parse_address_tcp_lem :
      (a : Place)
      → IsService is_port a.service
      → parse_address_tcp is_port resolve_udp resolve_tcp (address_text a)
        ≡ ok (resolve_tcp a.host a.service)
  unfolding parse_address_tcp
  parse_address_tcp_lem a (plain, port) =
      rw (address_parts_lem is_port a.host a.service plain) (rw port refl)

  -- With a complete command line whose addresses end in a port that `lexical_cast` takes, the client
  -- has its parameters from the resolvers, asked for the parts before and behind the last colon; if the
  -- GUI's address is not found it leaves, if the server's is not found it goes on with no endpoints.
  pub parse_parameters_lem :
      (gui server : Place) (name : Bytes) (port : ℕ)
      → IsService is_port gui.service
      → IsService is_port server.service
      → parse_parameters is_port resolve_udp resolve_tcp (given gui name port server) ≡ (
          or_fail (resolve_udp gui.host gui.service) exited >>= λ endpoint. ok (record {
            gui_address = endpoint;
            name = name;
            port = some port;
            server_address = resolve_tcp server.host server.service;
          }))
  unfolding parse_parameters
  parse_parameters_lem gui server name port h k =
      rw (parse_address_udp_lem gui h, parse_address_tcp_lem server k) refl
