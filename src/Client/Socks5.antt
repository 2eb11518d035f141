-- ===== src/Client/Socks5.antt =====
-- mytunnel-client/src/proxy/socks5.rs: one connection of the SOCKS5 proxy. The bytes that the local
-- client sends before it closes its side, and what the tunnel and the sockets do, are parameters. The
-- UDP association itself is Client/Udp.
pub mod Session
pub mod Relay
pub mod Answers
pub mod Tests
use mytunnel.Prelude.{
  ℕ, ◌+◌, Bool, List, [], ◌∷◌, ◌++◌, Option, none, some, Text, get_or, contains, not, ◌==◌,
  if◌then◌else◌, Result, ok, err,
}
use mytunnel.Bytes.{BytesCrate}
use mytunnel.Protocol
use mytunnel.Protocol.Socks5.{
  SocketAddr, version, auth_none, auth_no_acceptable, cmd_connect, cmd_bind, cmd_udp_associate,
  atyp_ipv4, atyp_domain, atyp_ipv6, rep_success, rep_general_failure, rep_host_unreachable,
  rep_cmd_not_supported, rep_atyp_not_supported, zero_bind_addr_v4, encode_reply, parse_address,
}
use mytunnel.Proxy.Tcp.{Copied, proxy_bidirectional}
use mytunnel.Server.Stream.{read_exact}
use mytunnel.Client.{TunnelEnv, Established, establish_tcp_tunnel}
use mytunnel.Client

pub data Error : Type 0 where
  stream_ended : Error
  write_failed : Error
  invalid_version : ℕ → Error
  no_acceptable_method : Error
  invalid_request_version : Error
  unsupported_address_type : ℕ → Error
  bad_address : Protocol.Error → Error
  tunnel_failed : Client.Error → Error
  association_failed : Error
  no_local_addr : Error
  bind_not_supported : Error
  unknown_command : ℕ → Error

-- What the local side does: whether the method selection and the reply can be written, whether a UDP
-- association can be created, and the address of its socket, if the system tells it.
pub record LocalEnv : Type 0 where
  pub selects : Bool
  pub replies : Bool
  pub associates : Bool
  pub local_addr : Option SocketAddr

-- What the handler has done: the bytes that it has written to the local client itself, what it has
-- written to the tunnel's stream (if it opened one), what was copied, the address of the association
-- that it has run, and its result.
pub record Handled : Type 0 where
  pub sent : List ℕ
  pub request : Option (List ℕ)
  pub proxied : Option (Copied (Unit {0}) × Copied (Unit {0}))
  pub associated : Option SocketAddr
  pub result : Result Error (Unit {0})

abbrev pub fails : Error → Handled
fails e = record { sent = []; request = none; proxied = none; associated = none; result = err e }

-- `stream.write_all(&encode_reply(..)).await?` and the return of an error.
unfoldable pub refuses : BytesCrate → LocalEnv → ℕ → Option (List ℕ) → Error → Handled
refuses bytes loc status request e =
    if loc.replies
    then record (fails e) { sent = encode_reply bytes status zero_bind_addr_v4; request = request }
    else record (fails write_failed) { request = request }

-- `handle_udp_associate`, up to the end of the association, which is a success however it ends.
unfoldable pub handle_udp_associate : BytesCrate → LocalEnv → Handled
unfolding refuses
handle_udp_associate bytes loc =
    if loc.associates
    then elim loc.local_addr [
      | none ↦ fails no_local_addr
      | some addr ↦
          if loc.replies
          then record {
            sent = encode_reply bytes rep_success addr;
            request = none;
            proxied = none;
            associated = some addr;
            result = ok tt;
          }
          else fails write_failed
    ]
    else refuses bytes loc rep_general_failure none association_failed

module _ (bytes : BytesCrate) (show_ipv6 : Text → Text) (loc : LocalEnv) (env : TunnelEnv) where
  -- What `handle_connect` does once `establish_tcp_tunnel` has returned.
  after_establish : List ℕ → Established → Handled
  unfolding refuses
  after_establish rest e = elim e.result [
    | err why ↦ refuses bytes loc rep_host_unreachable (some e.request) (tunnel_failed why)
    | ok u ↦
        if loc.replies
        then record {
          sent = encode_reply bytes rep_success zero_bind_addr_v4;
          request = some e.request;
          proxied = some (proxy_bidirectional (env.local_reads rest) env.quic_reads);
          associated = none;
          result = ok tt;
        }
        else record (fails write_failed) { request = some e.request }
  ]

  -- `handle_connect`; `rest` is what the client sends behind its request.
  unfoldable pub handle_connect : List ℕ → Text → ℕ → Handled
  unfolding refuses after_establish
  handle_connect rest host port =
      if env.opens
      then after_establish rest (establish_tcp_tunnel bytes env host port)
      else refuses bytes loc rep_general_failure none (tunnel_failed Client.open_failed)

  -- The `match cmd`.
  pub command : ℕ → Text → ℕ → List ℕ → Handled
  unfolding handle_connect handle_udp_associate refuses
  command cmd host port rest =
      if cmd == cmd_connect
      then handle_connect rest host port
      else if cmd == cmd_udp_associate
      then handle_udp_associate bytes loc
      else if cmd == cmd_bind
      then refuses bytes loc rep_cmd_not_supported none bind_not_supported
      else refuses bytes loc rep_cmd_not_supported none (unknown_command cmd)

  -- Once the rest of the address has been read, behind the part of it that was read before.
  with_address : ℕ → List ℕ → Option (List ℕ × List ℕ) → Handled
  unfolding command
  with_address cmd start none = fails stream_ended
  with_address cmd start (some (buf, rest)) =
      elim (parse_address bytes show_ipv6 (bytes.from_vec (start ++ buf))) [
        | err e ↦ fails (bad_address e)
        | ok ((host, port), left) ↦ command cmd host port rest
      ]

  -- The reading of a domain: its length, and then the domain with the port.
  with_length : ℕ → Option (List ℕ × List ℕ) → Handled
  unfolding with_address
  with_length cmd none = fails stream_ended
  with_length cmd (some (len_buf, rest)) =
      with_address cmd (atyp_domain ∷ len_buf) (read_exact (get_or len_buf 0 0 + 2) rest)

  -- The `match atyp`.
  read_address : ℕ → ℕ → List ℕ → Handled
  unfolding with_address with_length refuses
  read_address cmd atyp incoming =
      if atyp == atyp_ipv4
      then with_address cmd (atyp ∷ []) (read_exact 6 incoming)
      else if atyp == atyp_domain
      then with_length cmd (read_exact 1 incoming)
      else if atyp == atyp_ipv6
      then with_address cmd (atyp ∷ []) (read_exact 18 incoming)
      else refuses bytes loc rep_atyp_not_supported none (unsupported_address_type atyp)

  -- Behind the method selection: the request.
  read_request : Option (List ℕ × List ℕ) → Handled
  unfolding read_address
  read_request none = fails stream_ended
  read_request (some (request_header, rest)) =
      if get_or request_header 0 0 == version
      then read_address (get_or request_header 1 0) (get_or request_header 3 0) rest
      else fails invalid_request_version

  -- What is written behind the method selection.
  abbrev pub behind : List ℕ → Handled → Handled
  behind selection h = record h { sent = selection ++ h.sent }

  -- The choice of a method.
  choose_method : Option (List ℕ × List ℕ) → Handled
  unfolding read_request
  choose_method none = fails stream_ended
  choose_method (some (methods, rest)) =
      if not loc.selects
      then fails write_failed
      else if contains methods auth_none
      then behind (version ∷ auth_none ∷ []) (read_request (read_exact 4 rest))
      else behind (version ∷ auth_no_acceptable ∷ []) (fails no_acceptable_method)

  -- The version, and the list of methods.
  read_methods : Option (List ℕ × List ℕ) → Handled
  unfolding choose_method
  read_methods none = fails stream_ended
  read_methods (some (header, rest)) =
      if get_or header 0 0 == version
      then choose_method (read_exact (get_or header 1 0) rest)
      else fails (invalid_version (get_or header 0 0))

  -- `handle_socks5_client`
  unfoldable pub handle_socks5_client : List ℕ → Handled
  unfolding read_methods
  handle_socks5_client incoming = read_methods (read_exact 2 incoming)
