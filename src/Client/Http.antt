-- ===== src/Client/Http.antt =====
-- mytunnel-client/src/proxy/http.rs: one connection of the HTTP CONNECT proxy. The bytes that the local
-- client sends before it closes its side, and what the tunnel does, are parameters; the buffered reader
-- is the list of the lines that its calls of `read_line` return, and past them empty lines.
pub mod Target
pub mod Relay
pub mod Answers
use mytunnel.Prelude.{
  ℕ, Bool, not, List, [], ◌∷◌, ◌++◌, Option, none, some, Text, text, text_eq, if◌then◌else◌, ◌==◌,
  Result, ok, err, ◌>>=◌, is_utf8, to_decimal, parse_u16, split_first, split_last, split_whitespace,
  is_blank, lines_of, join_lines,
}
use mytunnel.Bytes.{BytesCrate}
use mytunnel.Proxy.Tcp.{Copied, proxy_bidirectional}
use mytunnel.Client.{TunnelEnv, Established, establish_tcp_tunnel}
use mytunnel.Client

pub data Error : Type 0 where
  invalid_port : Error
  invalid_ipv6_target : Text → Error
  invalid_target_format : Text → Error
  invalid_request_line : Error
  method_not_supported : Text → Error
  invalid_utf8 : Error
  write_failed : Error
  tunnel_failed : Client.Error → Error

-- `port_str.parse().context("Invalid port")`
abbrev parse_port : Text → Result Error ℕ
parse_port s = elim (parse_u16 s) [ none ↦ err invalid_port | some port ↦ ok port ]

abbrev with_port : Text → Text → Result Error (Text × ℕ)
with_port host port_str = parse_port port_str >>= λ port. ok (host, port)

-- Behind the closing bracket: `strip_prefix(':')`, and the port.
bracketed : Text → Text → Text → Result Error (Text × ℕ)
bracketed target host [] = err (invalid_ipv6_target target)
bracketed target host (c ∷ port_str) =
    if c == 58 then with_port host port_str else err (invalid_ipv6_target target)

-- A target without an opening bracket.
plain : Text → Result Error (Text × ℕ)
plain target = elim (split_last 58 target) [
  | none ↦ err (invalid_target_format target)
  | some (host, port_str) ↦ with_port host port_str
]

-- `parse_connect_target`
unfoldable pub parse_connect_target : Text → Result Error (Text × ℕ)
unfolding bracketed plain
parse_connect_target [] = plain []
parse_connect_target (c ∷ s) =
    if c == 91
    then elim (split_first 93 s) [
      | none ↦ err (invalid_ipv6_target (c ∷ s))
      | some (host, port_part) ↦ bracketed (c ∷ s) host port_part
    ]
    else plain (c ∷ s)

-- The bytes of `send_error`.
unfoldable pub error_response : ℕ → Text → Text
error_response status message =
    text "HTTP/1.1 "
    ++ to_decimal status
    ++ 32 ∷ message
    ++ 13 ∷ 10 ∷ text "Content-Length: 0"
    ++ 13 ∷ 10 ∷ text "Connection: close"
    ++ 13 ∷ 10 ∷ 13 ∷ 10 ∷ []

abbrev pub established_response : Text
established_response = text "HTTP/1.1 200 Connection Established" ++ 13 ∷ 10 ∷ 13 ∷ 10 ∷ []

-- What the handler has done: the bytes that it has written to the local client itself, what it has
-- written to the tunnel's stream (if it opened one), what was copied, and its result.
pub record Handled : Type 0 where
  pub sent : List ℕ
  pub request : Option (List ℕ)
  pub proxied : Option (Copied (Unit {0}) × Copied (Unit {0}))
  pub result : Result Error (Unit {0})

-- `send_error(..).await?` and the return of an error; `acks` says whether the client can be written to.
unfoldable pub refuses : Bool → ℕ → Text → Option (List ℕ) → Error → Handled
refuses acks status message request e =
    if acks
    then record {
      sent = error_response status message;
      request = request;
      proxied = none;
      result = err e;
    }
    else record { sent = []; request = request; proxied = none; result = err write_failed }

abbrev pub fails : Error → Handled
fails e = record { sent = []; request = none; proxied = none; result = err e }

-- The loop that discards the headers up to an empty line, or to the end of the stream: what is left.
unfoldable pub skip_headers : List Text → Result Error (List Text)
skip_headers [] = ok []
skip_headers (line ∷ rest) =
    let later = skip_headers rest in
    if not (is_utf8 line) then err invalid_utf8 else if is_blank line then ok rest else later

module _ (bytes : BytesCrate) (acks : Bool) (env : TunnelEnv) where
  -- What follows once `establish_tcp_tunnel` has returned; `rest` is what the reader still holds.
  after_establish : List ℕ → Established → Handled
  unfolding refuses
  after_establish rest e = elim e.result [
    | err why ↦ refuses acks 502 (text "Bad Gateway") (some e.request) (tunnel_failed why)
    | ok u ↦
        if acks
        then record {
          sent = established_response;
          request = some e.request;
          proxied = some (proxy_bidirectional (env.local_reads rest) env.quic_reads);
          result = ok tt;
        }
        else record {
          sent = [];
          request = some e.request;
          proxied = none;
          result = err write_failed;
        }
  ]

  -- Opening the stream and setting up the tunnel.
  tunnel_to : List ℕ → Text → ℕ → Handled
  unfolding refuses after_establish
  tunnel_to rest host port =
      if env.opens
      then after_establish rest (establish_tcp_tunnel bytes env host port)
      else refuses acks 502 (text "Bad Gateway") none (tunnel_failed Client.open_failed)

  -- The request behind its first line, once the method is known to be CONNECT.
  connects : Text → List Text → Handled
  unfolding tunnel_to parse_connect_target
  connects target headers = elim (parse_connect_target target) [
    | err e ↦ fails e
    | ok (host, port) ↦ elim (skip_headers headers) [
      | err e ↦ fails e
      | ok rest ↦ tunnel_to (join_lines rest) host port
    ]
  ]

  -- The words of the request line.
  by_words : List Text → List Text → Handled
  unfolding connects refuses
  by_words (method ∷ target ∷ version ∷ more) headers =
      if text_eq method (text "CONNECT")
      then connects target headers
      else refuses acks 405 (text "Method Not Allowed") none (method_not_supported method)
  by_words _ headers = refuses acks 400 (text "Bad Request") none invalid_request_line

  -- The first line, which is empty if the client sends nothing.
  by_line : List Text → Handled
  unfolding by_words
  by_line [] = by_words [] []
  by_line (line ∷ headers) =
      if is_utf8 line then by_words (split_whitespace line) headers else fails invalid_utf8

  -- `handle_http_client`
  unfoldable pub handle_http_client : List ℕ → Handled
  unfolding by_line
  handle_http_client incoming = by_line (lines_of incoming)
