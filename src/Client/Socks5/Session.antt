-- ===== src/Client/Socks5/Session.antt =====
-- A SOCKS5 connection (RFC 1928) as the handler reads it.
use mytunnel.Prelude.{
  ℕ, ◌+◌, ◌≡◌, refl, sym, ◌∙◌, subst, true, false, none, some, List, [], ◌∷◌, ◌++◌, append-nil,
  length, length-append, arith, Text, contains, to_be_bytes, err,
}
use mytunnel.Bytes.{BytesCrate}
use mytunnel.Protocol.Socks5.{
  version, auth_none, auth_no_acceptable, atyp_ipv4, atyp_domain, atyp_ipv6,
}
use mytunnel.Protocol.Socks5.Address.{
  Address, ipv4, domain, ipv6, type_byte, body, IsAddress, shown, address_bytes, parse_address_lem,
}
use mytunnel.Server.Stream.{read_exact}
use mytunnel.Server.Stream.Requests.{read_exact-append}
use mytunnel.Client.{TunnelEnv}
use mytunnel.Client.Socks5.{
  LocalEnv, no_acceptable_method, handle_socks5_client, read_methods, choose_method, read_request,
  read_address, with_length, with_address, command, behind,
}

-- The version and the methods that the client offers.
abbrev pub greeting : List ℕ → List ℕ → List ℕ
greeting methods rest = version ∷ length methods ∷ methods ++ rest

-- A request: its command, the reserved byte, the address and the port.
abbrev pub request : ℕ → ℕ → Address → ℕ → List ℕ → List ℕ
request cmd reserved a port rest =
    version ∷ cmd ∷ reserved ∷ type_byte a ∷ (body a ++ to_be_bytes port) ++ rest

read_exact-sized :
    (n : ℕ) (s rest : List ℕ) → length s ≡ n → read_exact n (s ++ rest) ≡ some (s, rest)
read_exact-sized n s rest e =
    subst (λ k. read_exact k (s ++ rest) ≡ some (s, rest)) e (read_exact-append s rest)

module _ (bytes : BytesCrate) (show_ipv6 : Text → Text) (loc : LocalEnv) (env : TunnelEnv) where
  -- An address that has been read whole is parsed.
  with_address_lem :
      (cmd : ℕ) (a : Address) (port : ℕ) (start buf rest : List ℕ)
      → IsAddress a
      → start ++ buf ≡ address_bytes a port
      → with_address bytes show_ipv6 loc env cmd start (some (buf, rest))
        ≡ command bytes show_ipv6 loc env cmd (shown show_ipv6 a) port rest
  unfolding with_address
  with_address_lem cmd a port start buf rest v e =
      let (left, parsed, empty) =
        parse_address_lem bytes show_ipv6 a port [] (bytes.from_vec (start ++ buf)) v
          (bytes.contents-from_vec (start ++ buf) ∙ e ∙ sym (append-nil (address_bytes a port))) in
      rw (parsed, with_address) refl

  read_address_lem :
      (cmd : ℕ) (a : Address) (port : ℕ) (rest : List ℕ)
      → IsAddress a
      → read_address bytes show_ipv6 loc env cmd
          (type_byte a)
          ((body a ++ to_be_bytes port) ++ rest)
        ≡ command bytes show_ipv6 loc env cmd (shown show_ipv6 a) port rest
  unfolding read_address with_length
  read_address_lem cmd (ipv4 w x y z) port rest v =
      rw (read_exact-append (body (ipv4 w x y z) ++ to_be_bytes port) rest) (
        with_address_lem cmd (ipv4 w x y z) port (atyp_ipv4 ∷ [])
          (body (ipv4 w x y z) ++ to_be_bytes port) rest v refl)
  read_address_lem cmd (domain host) port rest v =
      rw
        (
          read_exact-append (length host ∷ []) ((host ++ to_be_bytes port) ++ rest),
          with_length,
          read_exact-sized (length host + 2) (host ++ to_be_bytes port) rest
              (length-append host (to_be_bytes port)),
        )
        (with_address_lem cmd (domain host) port (atyp_domain ∷ length host ∷ [])
          (host ++ to_be_bytes port) rest v refl)
  read_address_lem cmd (ipv6 octets) port rest v =
      rw
        (read_exact-sized 18 (octets ++ to_be_bytes port) rest
          (omega (arith, length-append octets (to_be_bytes port), v)))
        (with_address_lem cmd (ipv6 octets) port (atyp_ipv6 ∷ []) (octets ++ to_be_bytes port) rest
          v refl)

  read_request_lem :
      (cmd reserved : ℕ) (a : Address) (port : ℕ) (rest : List ℕ)
      → IsAddress a
      → read_request bytes show_ipv6 loc env (read_exact 4 (request cmd reserved a port rest))
        ≡ command bytes show_ipv6 loc env cmd (shown show_ipv6 a) port rest
  unfolding read_request
  read_request_lem cmd reserved a port rest v =
      rw
        (read_exact-append (version ∷ cmd ∷ reserved ∷ type_byte a ∷ [])
          ((body a ++ to_be_bytes port) ++ rest))
        (read_address_lem cmd a port rest v)

  greeting_lem :
      (methods rest : List ℕ)
      → handle_socks5_client bytes show_ipv6 loc env (greeting methods rest)
        ≡ choose_method bytes show_ipv6 loc env (some (methods, rest))
  unfolding handle_socks5_client read_methods
  greeting_lem methods rest =
      rw (read_exact-append (version ∷ length methods ∷ []) (methods ++ rest), read_methods)
        (rw (read_exact-append methods rest) refl)

  -- A client that offers to go without authentication is answered with that method, and then its
  -- request is carried out on the host and the port that it names, whatever the command.
  pub handle_socks5_client-request :
      (methods : List ℕ) (cmd reserved : ℕ) (a : Address) (port : ℕ) (rest : List ℕ)
      → contains methods auth_none ≡ true
      → loc.selects ≡ true
      → IsAddress a
      → handle_socks5_client bytes show_ipv6 loc env
          (greeting methods (request cmd reserved a port rest))
        ≡ behind bytes show_ipv6 loc env
            (version ∷ auth_none ∷ [])
            (command bytes show_ipv6 loc env cmd (shown show_ipv6 a) port rest)
  unfolding choose_method
  handle_socks5_client-request methods cmd reserved a port rest offered selects v =
      greeting_lem methods (request cmd reserved a port rest)
      ∙ rw (selects, offered) (rw (read_request_lem cmd reserved a port rest v) refl)

  -- A client that does not offer to go without authentication gets the answer that no method is
  -- acceptable, if it can be written, and nothing else: no stream is opened and nothing is copied.
  pub handle_socks5_client-unacceptable :
      (methods rest : List ℕ)
      → contains methods auth_none ≡ false
      → loc.selects ≡ true
      → handle_socks5_client bytes show_ipv6 loc env (greeting methods rest) ≡ record {
        sent = version ∷ auth_no_acceptable ∷ [];
        request = none;
        proxied = none;
        associated = none;
        result = err no_acceptable_method;
      }
  unfolding choose_method
  handle_socks5_client-unacceptable methods rest missing selects =
      greeting_lem methods rest ∙ rw (selects, missing) refl
