-- ===== src/Client/Establish.antt =====
-- `establish_tcp_tunnel` against the server's handler of a stream.
use mytunnel.Prelude.{
  ℕ, ◌≡◌, ◌≤◌, refl, ap, ◌∙◌, subst, append-nil, true, List, [], ◌∷◌, some, Text, length, is_utf8,
  IsU16, ok, arith,
}
use mytunnel.Bytes.{BytesCrate}
use mytunnel.Metrics.{Metrics}
use mytunnel.Protocol.{decode_tcp_response}
use mytunnel.Server.Stream.{StreamEnv, handle_stream, format_target}
use mytunnel.Server.Stream.Requests.{handle_stream-encode_tcp_request}
use mytunnel.Client.{TunnelEnv, read_status, establish_tcp_tunnel}

read_status_ok : (s : List ℕ) → decode_tcp_response s ≡ ok tt → read_status s ≡ ok tt
unfolding decode_tcp_response read_status
read_status_ok [] e = absurd (cc)
read_status_ok (x ∷ s) e = ground arith

-- The tunnel answers each request as the server's handler does.
abbrev pub Serves : StreamEnv → Metrics → TunnelEnv → Type 0
Serves senv m env = env.respond ≡ λ request. (handle_stream senv m request).sent

module _ (bytes : BytesCrate) (senv : StreamEnv) (m : Metrics) (env : TunnelEnv) (host : Text)
    (port : ℕ) where
  -- Against the server, a request for a host of at most 255 bytes of UTF-8 and a 16-bit port is accepted,
  -- and the server has tried to connect to that host and port; provided the stream can be written in
  -- both directions.
  pub establish_tcp_tunnel-Serves :
      is_utf8 host ≡ true
      → length host ≤ 255
      → IsU16 port
      → senv.acks ≡ true
      → env.sends ≡ true
      → Serves senv m env
      → (request : List ℕ) × (establish_tcp_tunnel bytes env host port
          ≡ record { request = request; result = ok tt })
        × ((handle_stream senv m request).target ≡ some (format_target host port))
  unfolding establish_tcp_tunnel
  establish_tcp_tunnel-Serves u short p acks sends serves =
      let (request, encoded, target, answer) =
        handle_stream-encode_tcp_request bytes senv m host port [] u short p acks in
      let accepted : decode_tcp_response (env.respond request) ≡ ok tt =
        ap (λ (f : List ℕ → List ℕ). decode_tcp_response (f request)) serves
        ∙ subst (λ r. decode_tcp_response (handle_stream senv m r).sent ≡ ok tt)
            (append-nil request) answer in
      (
        request,
        rw (encoded, sends, read_status_ok (env.respond request) accepted, establish_tcp_tunnel)
            refl,
        subst (λ r. (handle_stream senv m r).target ≡ some (format_target host port))
            (append-nil request) target,
      )
