-- ===== src/Client/Http/Relay.antt =====
-- A CONNECT request through the client and the server.
use mytunnel.Prelude.{
  ℕ, ◌≡◌, ◌≢◌, ◌<◌, ◌≤◌, refl, sym, ap, ◌∙◌, true, false, List, [], ◌∷◌, ◌++◌, some, append_assoc,
  Text, text, text_eq, length, All, All-append, is_utf8, is_utf8-IsAscii, IsAscii, IsU16, IsVisible,
  Lacks, ok, arith, to_decimal, to_decimal-IsVisible, lines_of, lines_of_line, join-lines_of,
  split_whitespace, split_whitespace-word, split_whitespace-crlf, is_blank,
}
use mytunnel.Bytes.{BytesCrate}
use mytunnel.Metrics.{Metrics}
use mytunnel.Proxy.Tcp.{proxy_bidirectional}
use mytunnel.Server.Stream.{StreamEnv, handle_stream, format_target}
use mytunnel.Client.{TunnelEnv, Established, establish_tcp_tunnel}
use mytunnel.Client.Establish.{Serves, establish_tcp_tunnel-Serves}
use mytunnel.Client.Http.{
  Handled, handle_http_client, by_line, by_words, connects, tunnel_to, after_establish,
  parse_connect_target, skip_headers, established_response,
}
use mytunnel.Client.Http.Target.{Unbracketed, parse_connect_target-format_target}

-- `CONNECT target HTTP/1.1` and a carriage return.
abbrev pub connect_line : Text → Text
connect_line target = text "CONNECT " ++ (target ++ (text " HTTP/1.1" ++ 13 ∷ []))

-- Header lines, each with a newline, and what follows them.
abbrev pub header_bytes : List Text → Text → Text
header_bytes [] rest = rest
header_bytes (h ∷ hs) rest = h ++ 10 ∷ header_bytes hs rest

-- The request: its line, the headers, an empty line, and what the client sends behind it.
abbrev pub connect_request : Text → List Text → Text → Text
connect_request target headers rest =
    connect_line target ++ 10 ∷ header_bytes headers (13 ∷ 10 ∷ rest)

-- A line of UTF-8 that is not blank.
abbrev pub IsHeader : Text → Type 0
IsHeader h = Lacks 10 h × (is_utf8 (h ++ 10 ∷ []) ≡ true) × (is_blank (h ++ 10 ∷ []) ≡ false)

skip_headers_lem :
    (hs : List Text) (rest : Text)
    → All IsHeader hs
    → skip_headers (lines_of (header_bytes hs (13 ∷ 10 ∷ rest))) ≡ ok (lines_of rest)
unfolding skip_headers
skip_headers_lem [] rest ok_hs =
    rw (lines_of_line (13 ∷ []) rest (omega arith, tt)) (unfold is_utf8 is_blank in refl)
skip_headers_lem (h ∷ hs) rest (ok_h, ok_hs) =
    rw (lines_of_line h (header_bytes hs (13 ∷ 10 ∷ rest)) ok_h.0, ok_h.1, ok_h.2)
      (skip_headers_lem hs rest ok_hs)

visible-Lacks : (w : Text) → IsVisible w → Lacks 10 w
visible-Lacks [] h = tt
visible-Lacks (c ∷ w) h = (omega (arith, h.0.0), visible-Lacks w h.1)

visible-IsAscii : (w : Text) → IsVisible w → IsAscii w
visible-IsAscii [] h = tt
visible-IsAscii (c ∷ w) h = (h.0.1, visible-IsAscii w h.1)

module _ (target : Text) (v : IsVisible target) where
  lines-connect_request :
      (k : Text)
      → lines_of (connect_line target ++ 10 ∷ k) ≡ (connect_line target ++ 10 ∷ []) ∷ lines_of k
  lines-connect_request k = lines_of_line (connect_line target) k (
      All-append (λ c. c ≢ 10) (text "CONNECT ") (target ++ (text " HTTP/1.1" ++ 13 ∷ []))
        (omega arith)
        (All-append (λ c. c ≢ 10) target (text " HTTP/1.1" ++ 13 ∷ []) (visible-Lacks target v)
          (omega arith)))

  line-utf8 : is_utf8 (connect_line target ++ 10 ∷ []) ≡ true
  line-utf8 = is_utf8-IsAscii (connect_line target ++ 10 ∷ []) (
      All-append (λ c. c < 128) (connect_line target) (10 ∷ [])
        (All-append (λ c. c < 128) (text "CONNECT ") (target ++ (text " HTTP/1.1" ++ 13 ∷ []))
          (omega arith)
          (All-append (λ c. c < 128) target (text " HTTP/1.1" ++ 13 ∷ []) (visible-IsAscii target v)
            (omega arith)))
        (omega arith))

words-connect_line :
    (c : ℕ) (w : Text)
    → IsVisible (c ∷ w)
    → split_whitespace (connect_line (c ∷ w) ++ 10 ∷ [])
      ≡ text "CONNECT" ∷ (c ∷ w) ∷ text "HTTP/1.1" ∷ []
words-connect_line c w v =
    split_whitespace-word 67 (text "ONNECT") _ (omega arith)
    ∙ ap (λ s. text "CONNECT" ∷ split_whitespace (c ∷ s))
        (append_assoc w (text " HTTP/1.1" ++ 13 ∷ []) (10 ∷ []))
    ∙ ap (◌∷◌ (text "CONNECT")) (split_whitespace-word c w (text "HTTP/1.1" ++ 13 ∷ 10 ∷ []) v)
    ∙ ap (λ l. text "CONNECT" ∷ (c ∷ w) ∷ l)
        (split_whitespace-crlf 72 (text "TTP/1.1") (omega arith))

target-IsVisible : (host : Text) (port : ℕ) → IsVisible host → IsVisible (format_target host port)
unfolding format_target
target-IsVisible host port v =
    All-append (λ b. (32 < b) × (b < 128)) host (58 ∷ to_decimal port) v
      (omega arith, to_decimal-IsVisible port)

format_target-nonempty : (host : Text) (port : ℕ) → format_target host port ≢ []
unfolding format_target
format_target-nonempty [] port e = cc
format_target-nonempty (c ∷ host) port e = cc

module _ (bytes : BytesCrate) (senv : StreamEnv) (m : Metrics) (env : TunnelEnv) (host : Text)
    (port : ℕ) where
  -- What the client has done when it relays a connection whose bytes behind the request are `rest`.
  pub record Relays (rest : Text) (h : Handled) : Type 0 where
    pub request : List ℕ
    pub answered : h.sent ≡ established_response
    pub requested : h.request ≡ some request
    pub reached : (handle_stream senv m request).target ≡ some (format_target host port)
    pub copied : h.proxied ≡ some (proxy_bidirectional (env.local_reads rest) env.quic_reads)
    pub succeeded : h.result ≡ ok tt

  tunnel_to-Relays :
      (rest : Text)
      → is_utf8 host ≡ true
      → length host ≤ 255
      → IsU16 port
      → senv.acks ≡ true
      → env.opens ≡ true
      → env.sends ≡ true
      → Serves senv m env
      → Relays rest (tunnel_to bytes true env rest host port)
  unfolding tunnel_to after_establish
  tunnel_to-Relays rest u short p acks opens sends serves =
      let (request, established, reached) =
        establish_tcp_tunnel-Serves bytes senv m env host port u short p acks sends serves in
      let opened : tunnel_to bytes true env rest host port
          ≡ after_establish bytes true env rest (establish_tcp_tunnel bytes env host port) =
        ground (arith, opens) in
      rw (opened, established, after_establish)
        record {
          request = request;
          answered = refl;
          requested = ap (λ (e : Established). some e.request) established;
          reached = reached;
          copied = refl;
          succeeded = refl;
        }

  by_words-Relays :
      (c : ℕ) (w : Text) (headers : List Text) (rest : Text)
      → format_target host port ≡ c ∷ w
      → IsU16 port
      → Unbracketed host
      → All IsHeader headers
      → Relays rest (tunnel_to bytes true env rest host port)
      → Relays rest (
          by_words bytes true env
            (text "CONNECT" ∷ (c ∷ w) ∷ text "HTTP/1.1" ∷ [])
            (lines_of (header_bytes headers (13 ∷ 10 ∷ rest))))
  unfolding by_words connects text_eq
  by_words-Relays c w headers rest e p plain ok_headers relays =
      rw
        (
          sym (ap parse_connect_target e) ∙ parse_connect_target-format_target host port p plain,
          skip_headers_lem headers rest ok_headers,
          join-lines_of rest,
          connects,
        )
        relays

  -- A request `CONNECT host:port HTTP/1.1` with any headers, an empty line, and more data, sent to
  -- a client whose tunnel leads to the server, is answered with `200 Connection Established`. The
  -- client sends the server a request for which that has tried to connect to the same host and
  -- port, and then copies in both directions, on the local side from what follows the empty line.
  -- The host is visible ASCII of at most 255 bytes with no bracket in front, the port a 16-bit
  -- number, each header a line of UTF-8 that is not blank, and every stream can be opened and
  -- written.
  pub handle_http_client-Relays :
      (headers : List Text) (rest : Text)
      → IsVisible host
      → length host ≤ 255
      → IsU16 port
      → Unbracketed host
      → All IsHeader headers
      → senv.acks ≡ true
      → env.opens ≡ true
      → env.sends ≡ true
      → Serves senv m env
      → Relays rest (
          handle_http_client bytes true env
            (connect_request (format_target host port) headers rest))
  unfolding handle_http_client by_line
  handle_http_client-Relays headers rest v short p plain ok_headers acks opens sends serves =
      by_target (format_target host port) refl (target-IsVisible host port v)
    where
      relays : Relays rest (tunnel_to bytes true env rest host port)
      relays =
          tunnel_to-Relays rest (is_utf8-IsAscii host (visible-IsAscii host v)) short p acks opens
            sends serves

      by_target :
          (t : Text)
          → format_target host port ≡ t
          → IsVisible t
          → Relays rest (handle_http_client bytes true env (connect_request t headers rest))
      by_target [] e vt = absurd (format_target-nonempty host port e)
      by_target (c ∷ w) e vt =
          rw
            (
              lines-connect_request (c ∷ w) vt (header_bytes headers (13 ∷ 10 ∷ rest)),
              line-utf8 (c ∷ w) vt,
              words-connect_line c w vt,
            )
            (by_words-Relays c w headers rest e p plain ok_headers relays)
