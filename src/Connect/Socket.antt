-- ===== src/Connect/Socket.antt =====
-- src/connect_socket.rs: the addresses of a host, tried in turn.
use may_postgres.Base.{ℕ, List, [], ◌∷◌, Option, none, some, codes, Text, Result, ok, err, map_err}
use may_postgres.Protocol.{IoError, invalid_data}
use may_postgres.Error.{Error, connect_error}
use may_postgres.Config.{Host, tcp}

-- std::net and the sockets of may. `State` is what the calls change; a connect has a timeout if it
-- is given one.
pub record Network : Type 1 where
  pub State : Type 0
  pub Address : Type 0
  pub Socket : Type 0
  pub parse_ip : Text → ℕ → Option Address
  pub to_socket_addrs : Text → ℕ → State → Result IoError (List Address) × State
  pub connect : Address → Option ℕ → State → Result IoError Socket × State
  pub set_nodelay : Socket → State → Result IoError Unit × State

abbrev pub no_addresses : Error
no_addresses = connect_error (record { kind = invalid_data; text = codes "resolved 0 addresses" })

abbrev pub unwrap_or_error : Option Error → Error
unwrap_or_error (some e) = e
unwrap_or_error none = no_addresses

module _ (net : Network) where
  open net use {State, Address, Socket, parse_ip, to_socket_addrs, connect, set_nodelay}

  abbrev pub connect_with_timeout : Address → Option ℕ → State → Result Error Socket × State
  connect_with_timeout addr timeout s =
      let (r, t) = connect addr timeout s in (map_err connect_error r, t)

  abbrev pub on_nodelay : Socket → Result IoError Unit × State → Result Error Socket × State
  on_nodelay socket (ok _, s) = (ok socket, s)
  on_nodelay socket (err e, s) = (err (connect_error e), s)

  -- The body of the loop.
  abbrev pub on_address :
      Result Error Socket × State
      → (Error → State → Result Error Socket × State)
      → Result Error Socket × State
  on_address (ok socket, s) continue = on_nodelay socket (set_nodelay socket s)
  on_address (err e, s) continue = continue e s

  unfoldable pub address_loop :
      Option ℕ → List Address → Option Error → State → Result Error Socket × State
  address_loop timeout [] error s = (err (unwrap_or_error error), s)
  address_loop timeout (addr ∷ addrs) error s =
      on_address (connect_with_timeout addr timeout s) (λ e. address_loop timeout addrs (some e))

  abbrev pub on_addresses :
      Option ℕ → Result IoError (List Address) × State → Result Error Socket × State
  on_addresses timeout (ok addrs, s) = address_loop timeout addrs none s
  on_addresses timeout (err e, s) = (err (connect_error e), s)

  abbrev pub dns : Text → ℕ → State → Result IoError (List Address) × State
  dns host port s = to_socket_addrs host port s

  abbrev pub on_ip : Text → ℕ → Option ℕ → State → Option Address → Result Error Socket × State
  on_ip host port timeout s (some addr) = address_loop timeout (addr ∷ []) none s
  on_ip host port timeout s none = on_addresses timeout (dns host port s)

  -- The keepalive settings are not used.
  unfoldable pub connect_socket : Host → ℕ → Option ℕ → State → Result Error Socket × State
  connect_socket (tcp host) port timeout s = on_ip host port timeout s (parse_ip host port)
