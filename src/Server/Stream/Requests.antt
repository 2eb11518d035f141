-- ===== src/Server/Stream/Requests.antt =====
-- The server's handler and the client's requests.
use mytunnel.Prelude.{
  ℕ, ◌≤◌, ◌%◌, ◌/◌, ◌≡◌, ◌≢◌, refl, true, false, none, some, List, [], ◌∷◌, ◌++◌, length, arith,
  Text, is_utf8, IsU16, from_be_bytes-div-mod, take-append, drop-append, length-append, le→not_ltb,
  Result, ok, err, append-nil,
}
use mytunnel.Bytes.{BytesCrate}
use mytunnel.Metrics.{Metrics}
use mytunnel.Proxy.Tcp.{Proxied, proxy_stream, connect_failed}
use mytunnel.Proxy.Tcp
use mytunnel.Protocol.{
  encode_tcp_request, decode_tcp_response, tcp_connect, status_ok, server_returned_error,
}
use mytunnel.Server.Stream.{
  StreamEnv, read_exact, format_target, proxy_failed, after_proxy, dispatch, read_host,
  handle_stream,
}

pub read_exact-append : (s rest : List ℕ) → read_exact (length s) (s ++ rest) ≡ some (s, rest)
unfolding read_exact
read_exact-append s rest =
    rw
      (
        le→not_ltb (length (s ++ rest)) (length s) (omega (arith, length-append s rest)),
        take-append s rest,
        drop-append s rest,
      )
      refl

-- A request as the handler reads it: [type][port, 2 bytes][host length][host], and what follows.
abbrev pub request_bytes : ℕ → Text → ℕ → List ℕ → List ℕ
request_bytes request_type host port rest =
    request_type ∷ port / 256 ∷ port % 256 ∷ length host ∷ host ++ rest

handle_stream-request :
    (env : StreamEnv) (m : Metrics) (request_type : ℕ) (host : Text) (port : ℕ) (rest : List ℕ)
    → is_utf8 host ≡ true
    → handle_stream env m (request_bytes request_type host port rest)
      ≡ dispatch env m request_type host port
unfolding handle_stream
handle_stream-request env m request_type host port rest u =
    rw
      (
        read_exact-append (request_type ∷ port / 256 ∷ port % 256 ∷ [])
            (length host ∷ host ++ rest),
        handle_stream,
      )
      (rw (read_exact-append (length host ∷ []) (host ++ rest), read_host)
        (rw (read_exact-append host rest, u, from_be_bytes-div-mod port) refl))

pub after_proxy-target :
    (target : Text) (r : Result Tcp.Error Proxied) → (after_proxy target r).target ≡ some target
unfolding after_proxy
after_proxy-target target (ok p) = refl
after_proxy-target target (err e) = refl

after_proxy-sent :
    (target : Text) (r : Result Tcp.Error Proxied) → (after_proxy target r).sent ≡ status_ok ∷ []
unfolding after_proxy
after_proxy-sent target (ok p) = refl
after_proxy-sent target (err e) = refl

-- The client's request for a host of at most 255 bytes of UTF-8 and a 16-bit port makes the server try
-- to connect to that host and port, whatever follows the request; it answers, if the answer can be
-- written, with a byte that the client takes for success, and so also if the target refuses.
pub handle_stream-encode_tcp_request :
    (bytes : BytesCrate) (env : StreamEnv) (m : Metrics) (host : Text) (port : ℕ) (rest : List ℕ)
    → is_utf8 host ≡ true
    → length host ≤ 255
    → IsU16 port
    → env.acks ≡ true
    → (sent : List ℕ) × (encode_tcp_request bytes host port ≡ ok sent)
      × ((handle_stream env m (sent ++ rest)).target ≡ some (format_target host port))
      × (decode_tcp_response (handle_stream env m (sent ++ rest)).sent ≡ ok tt)
unfolding encode_tcp_request decode_tcp_response dispatch
handle_stream-encode_tcp_request bytes env m host port rest u h p acks =
    let short : length host % 256 ≡ length host = omega arith in
    let e = handle_stream-request env m tcp_connect host port rest u in
    (
      request_bytes tcp_connect host port [],
      rw
          (
            le→not_ltb 255 (length host) h,
            bytes.put_u16_lem (tcp_connect ∷ []) port p,
            short,
            append-nil host,
          )
          refl,
      rw (append-nil host, e, acks) (after_proxy-target (format_target host port) _),
      rw (append-nil host, e, acks)
          (rw
            (after_proxy-sent (format_target host port)
              (proxy_stream env.connects (format_target host port) env.quic_reads env.tcp_reads m))
            refl),
    )

-- A target that refuses the connection is noticed only after the client has been told of success: for
-- every such request the server has sent the byte for success, and then fails and copies nothing.
pub handle_stream-refused :
    (env : StreamEnv) (m : Metrics) (host : Text) (port : ℕ) (rest : List ℕ)
    → is_utf8 host ≡ true
    → env.acks ≡ true
    → env.connects (format_target host port) ≡ false
    → let h = handle_stream env m (request_bytes tcp_connect host port rest) in
      (decode_tcp_response h.sent ≡ ok tt)
      × (h.proxied ≡ none)
      × (h.result ≡ err (proxy_failed (connect_failed (format_target host port))))
unfolding decode_tcp_response dispatch after_proxy proxy_stream
handle_stream-refused env m host port rest u acks refused =
    rw (handle_stream-request env m tcp_connect host port rest u, acks, refused) (refl, refl, refl)

-- A request of another type connects to nothing, and its answer, if it can be written, is the byte that
-- the client takes for an error of the server.
pub handle_stream-unknown :
    (env : StreamEnv) (m : Metrics) (request_type : ℕ) (host : Text) (port : ℕ) (rest : List ℕ)
    → is_utf8 host ≡ true
    → request_type ≢ tcp_connect
    → env.acks ≡ true
    → let h = handle_stream env m (request_bytes request_type host port rest) in
      (h.target ≡ none) × (decode_tcp_response h.sent ≡ err server_returned_error)
unfolding decode_tcp_response dispatch
handle_stream-unknown env m request_type host port rest u other acks =
    rw (handle_stream-request env m request_type host port rest u) (ground arith)
