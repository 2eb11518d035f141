-- ===== src/Client/Tests.antt =====
-- The client's proxies at concrete requests.
use mytunnel.Prelude.{
  ℕ, ◌≡◌, refl, true, some, List, [], ◌∷◌, ◌++◌, arith, Text, text, is_utf8, to_decimal, ok,
  parse_u16, is_blank,
}
use mytunnel.Bytes.{list_bytes}
use mytunnel.Metrics
use mytunnel.Metrics.{Metrics}
use mytunnel.Server.Stream.{StreamEnv, handle_stream, format_target}
use mytunnel.Client.{TunnelEnv, establish_tcp_tunnel}
use mytunnel.Client.Establish.{establish_tcp_tunnel-Serves}
use mytunnel.Client.Http.{parse_connect_target, handle_http_client}
use mytunnel.Client.Http.Target.{
  IsTarget, parse_connect_target-format_target, parse_connect_target-bracketed,
  parse_connect_target-IsTarget,
}
use mytunnel.Client.Http.Answers.{Answers, handle_http_client-Answers}
use mytunnel.Client.Http.Relay.{Relays, connect_request, handle_http_client-Relays}

abbrev pub host : Text
host = text "a.b"

abbrev pub server : StreamEnv
server = record { acks = true; connects = λ target. true; quic_reads = []; tcp_reads = [] }

abbrev pub tunnel : TunnelEnv
tunnel = record {
  opens = true;
  sends = true;
  respond = λ request. (handle_stream server Metrics.new request).sent;
  local_reads = λ rest. [];
  quic_reads = [];
}

abbrev headers : List Text
headers = (text "Host: a.b" ++ 13 ∷ []) ∷ []

parse_connect_target-format_target_example :
    parse_connect_target (format_target (text "::1") 443) ≡ ok (text "::1", 443)
parse_connect_target-format_target_example =
    parse_connect_target-format_target (text "::1") 443 (omega arith) (omega arith)

parse_connect_target-bracketed_example :
    parse_connect_target (91 ∷ text "::1" ++ 93 ∷ 58 ∷ to_decimal 443) ≡ ok (text "::1", 443)
parse_connect_target-bracketed_example =
    parse_connect_target-bracketed (text "::1") 443 (omega arith) (omega arith)

parsed : parse_connect_target (text "a.b:80") ≡ ok (text "a.b", 80)
unfolding parse_connect_target parse_u16 mytunnel.Prelude.split_last
parsed = refl

parse_connect_target-IsTarget_example : IsTarget (text "a.b:80") (text "a.b") 80
parse_connect_target-IsTarget_example =
    parse_connect_target-IsTarget (text "a.b:80") (text "a.b") 80 parsed

handle_http_client-Relays_example :
    Relays list_bytes server Metrics.new tunnel host 443 (text "hello") (
      handle_http_client list_bytes true tunnel
        (connect_request (format_target host 443) headers (text "hello")))
unfolding is_utf8 is_blank
handle_http_client-Relays_example =
    handle_http_client-Relays list_bytes server Metrics.new tunnel host 443 headers (text "hello")
      (omega arith) (omega arith) (omega arith) (omega arith) ((omega arith, refl, refl), tt) refl
      refl refl refl

establish_tcp_tunnel-Serves_example :
    (request : List ℕ) × (establish_tcp_tunnel list_bytes tunnel host 443
      ≡ record { request = request; result = ok tt })
    × ((handle_stream server Metrics.new request).target ≡ some (format_target host 443))
unfolding is_utf8
establish_tcp_tunnel-Serves_example =
    establish_tcp_tunnel-Serves list_bytes server Metrics.new tunnel host 443 refl (omega arith)
      (omega arith) refl refl refl

handle_http_client-Answers_example :
    Answers (handle_http_client list_bytes true tunnel (text "GET / HTTP/1.1" ++ 13 ∷ 10 ∷ []))
handle_http_client-Answers_example =
    handle_http_client-Answers list_bytes true tunnel (text "GET / HTTP/1.1" ++ 13 ∷ 10 ∷ [])
