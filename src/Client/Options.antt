-- ===== src/Client/Options.antt =====
-- client-parser.h and client-parser.cpp: the command line of the client. Boost reads it and resolves
-- the addresses: the value stored for each option that was there is an argument.
pub mod Laws
use bomberrobots.Base.{
  ℕ, Bool, List, [], Option, none, some, Result, ok, err, or_fail, exited, ◌>>=◌, if◌then◌else◌,
}
use bomberrobots.Messages.{Bytes}
use bomberrobots.Client.Address.{address_parts}

-- What `store` and `notify` did.
pub record CommandLine : Type 0 where
  -- they threw
  pub failed : Bool
  pub help : Bool
  pub gui_address : Option Bytes
  pub player_name : Option Bytes
  pub port : Option ℕ
  pub server_address : Option Bytes

-- `client_parameters_t`. The port is `none` if it was never written.
pub record ClientParameters (Endpoint : Type 0) : Type 0 where
  pub gui_address : Endpoint
  pub name : Bytes
  pub port : Option ℕ
  pub server_address : List Endpoint

-- Of which strings `lexical_cast` takes a port, and what the resolvers find: the one for UDP throws
-- where it finds nothing (`none`), the one for TCP gives an empty list.
module _ {Endpoint : Type 0} (is_port : Bytes → Bool)
    (resolve_udp : Bytes → Bytes → Option Endpoint)
    (resolve_tcp : Bytes → Bytes → List Endpoint) where
  -- The exception of the resolver is caught in `parse_parameters`, which leaves.
  unfoldable pub parse_address_udp : Bytes → Result Endpoint
  parse_address_udp endpoint_str = do
    (host, port) ← address_parts is_port endpoint_str
    or_fail (resolve_udp host port) exited

  unfoldable pub parse_address_tcp : Bytes → Result (List Endpoint)
  parse_address_tcp endpoint_str = do
    (host, port) ← address_parts is_port endpoint_str
    ok (resolve_tcp host port)

  -- An address that was not given makes `as` throw, which is caught. A name that was not given is
  -- the empty string.
  unfoldable pub parse_parameters : CommandLine → Result (ClientParameters Endpoint)
  unfolding parse_address_udp parse_address_tcp
  parse_parameters line = if line.failed then err exited else if line.help then err exited else do
    gui_str ← or_fail line.gui_address exited
    gui_address ← parse_address_udp gui_str
    server_str ← or_fail line.server_address exited
    server_address ← parse_address_tcp server_str
    ok (record {
      gui_address = gui_address;
      name = elim line.player_name [ none ↦ [] | some name ↦ name ];
      port = line.port;
      server_address = server_address;
    })
