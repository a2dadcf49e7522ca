-- ===== src/Connect/Dialed.antt =====
-- Where the socket leads that `connect_socket` of src/connect_socket.rs returns.
use may_postgres.Base.{
  ℕ, List, [], ◌∷◌, ◌≡◌, refl, sym, ap, ◌∙◌, Option, none, some, arith, inl, inr, ◌⊎◌, Text, Result,
  ok, err, map_err,
}
use may_postgres.Protocol.{IoError}
use may_postgres.Error.{Error, connect_error}
use may_postgres.Config.{Host, tcp}
use may_postgres.Connect.Socket.{
  Network, connect_with_timeout, on_nodelay, on_address, address_loop, on_addresses, on_ip,
  connect_socket,
}

abbrev pub OneOf : {A : Type 0} → A → List A → Type 0
OneOf a [] = ⊥
OneOf a (b ∷ bs) = (a ≡ b) ⊎ OneOf a bs

module _ (net : Network) where
  -- The socket was opened to this address, with the timeout, and sends without delay.
  pub record Opened (address : net.Address) (timeout : Option ℕ) (socket : net.Socket)
      : Type 0 where
    pub before : net.State
    pub opened : (net.connect address timeout before).0 ≡ ok socket
    pub nodelay_before : net.State
    pub nodelay : (net.set_nodelay socket nodelay_before).0 ≡ ok tt

  -- The host is the address, or the resolver has given it for the host.
  abbrev pub Resolves : Text → ℕ → net.Address → Type 0
  Resolves host port address =
      (net.parse_ip host port ≡ some address)
      ⊎ ((net.parse_ip host port ≡ none)
          × ((s : net.State) × (addresses : List net.Address) × ((net.to_socket_addrs host port s).0
                ≡ ok addresses)
              × OneOf address addresses))

  -- The socket was opened to an address of the host and port.
  abbrev pub Dialed : Host → ℕ → Option ℕ → net.Socket → Type 0
  Dialed (tcp host) port timeout socket =
      (address : net.Address) × Resolves host port address × Opened address timeout socket

  opens :
      (r : Result IoError net.Socket) {socket : net.Socket}
      → map_err connect_error r ≡ ok socket
      → r ≡ ok socket
  opens (ok socket) h = ground (arith, h)
  opens (err e) h = absurd (ground (arith, h))

  on_nodelay-eq-ok :
      (socket : net.Socket) (r : Result IoError Unit × net.State) {other : net.Socket}
      {t : net.State}
      → on_nodelay net socket r ≡ (ok other, t)
      → (socket ≡ other) × (r.0 ≡ ok tt)
  on_nodelay-eq-ok socket (ok _, s) h = (ground (arith, ap (λ p. p.0) h), refl)
  on_nodelay-eq-ok socket (err e, s) h = absurd (ground (arith, ap (λ p. p.0) h))

  abbrev OpenedOneOf : List net.Address → Option ℕ → net.Socket → Type 0
  OpenedOneOf addresses timeout socket =
      (address : net.Address) × OneOf address addresses × Opened address timeout socket

  on_address-Opened :
      (address : net.Address) (addresses : List net.Address) (timeout : Option ℕ) (s u : net.State)
      (r : Result Error net.Socket)
      (continue : Error → net.State → Result Error net.Socket × net.State) {socket : net.Socket}
      {t : net.State}
      → (connect_with_timeout net address timeout s).0 ≡ r
      → ((e : Error) → continue e u ≡ (ok socket, t) → OpenedOneOf addresses timeout socket)
      → on_address net (r, u) continue ≡ (ok socket, t)
      → OpenedOneOf (address ∷ addresses) timeout socket
  on_address-Opened address addresses timeout s u (err e) continue same next h =
      let (found, one, o) = next e h in (found, inr one, o)
  on_address-Opened address addresses timeout s u (ok other) continue same next h =
      let (is_socket, no_delay) = on_nodelay-eq-ok other (net.set_nodelay other u) h in
      (
        address,
        inl refl,
        record {
          before = s;
          opened = opens (net.connect address timeout s).0 same ∙ ap ok is_socket;
          nodelay_before = u;
          nodelay = ap (λ c. (net.set_nodelay c u).0) (sym is_socket) ∙ no_delay;
        },
      )

  address_loop-Opened :
      (timeout : Option ℕ) (addresses : List net.Address) (error : Option Error) (s : net.State)
      {socket : net.Socket} {t : net.State}
      → address_loop net timeout addresses error s ≡ (ok socket, t)
      → OpenedOneOf addresses timeout socket
  unfolding address_loop
  address_loop-Opened timeout [] error s h = absurd (ground (arith, ap (λ p. p.0) h))
  address_loop-Opened timeout (address ∷ addresses) error s h =
      on_address-Opened address addresses timeout s _ _ _ refl
        (λ e k. address_loop-Opened timeout addresses (some e) _ k) h

  on_addresses-Opened :
      (timeout : Option ℕ) (r : Result IoError (List net.Address) × net.State) {socket : net.Socket}
      {t : net.State}
      → on_addresses net timeout r ≡ (ok socket, t)
      → (addresses : List net.Address) × (r.0 ≡ ok addresses) × OpenedOneOf addresses timeout socket
  on_addresses-Opened timeout (ok addresses, s) h =
      (addresses, refl, address_loop-Opened timeout addresses none s h)
  on_addresses-Opened timeout (err e, s) h = absurd (ground (arith, ap (λ p. p.0) h))

  only : (a c : net.Address) → OneOf c (a ∷ []) → a ≡ c
  only a c (inl same) = sym same
  only a c (inr none_) = absurd none_

  on_ip-Dialed :
      (host : Text) (port : ℕ) (timeout : Option ℕ) (s : net.State) (o : Option net.Address)
      {socket : net.Socket} {t : net.State}
      → net.parse_ip host port ≡ o
      → on_ip net host port timeout s o ≡ (ok socket, t)
      → Dialed (tcp host) port timeout socket
  on_ip-Dialed host port timeout s (some address) e h =
      let (found, one, o) = address_loop-Opened timeout (address ∷ []) none s h in
      (found, inl (e ∙ ap some (only address found one)), o)
  on_ip-Dialed host port timeout s none e h =
      let (addresses, resolved, (found, one, o)) =
        on_addresses-Opened timeout (net.to_socket_addrs host port s) h in
      (found, inr (e, (s, addresses, resolved, one)), o)

  pub connect_socket-Dialed :
      (host : Host) (port : ℕ) (timeout : Option ℕ) (s : net.State) {socket : net.Socket}
      {t : net.State}
      → connect_socket net host port timeout s ≡ (ok socket, t)
      → Dialed host port timeout socket
  unfolding connect_socket
  connect_socket-Dialed (tcp host) port timeout s h =
      on_ip-Dialed host port timeout s (net.parse_ip host port) refl h
