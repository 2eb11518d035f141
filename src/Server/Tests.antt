-- ===== src/Server/Tests.antt =====
-- The server's handlers at concrete messages.
use mytunnel.Prelude.{
  ◌⊎◌, text_eq, if◌then◌else◌, ℕ, ◌≡◌, refl, true, false, none, some, List, [], ◌∷◌, ◌++◌, arith,
  Text, text, is_utf8, to_decimal, ok,
}
use mytunnel.Bytes.{list_bytes}
use mytunnel.Dash.Assoc
use mytunnel.Proxy.Tcp
use mytunnel.Metrics
use mytunnel.Metrics.{Metrics, datagram_tx}
use mytunnel.Protocol.{
  tcp_connect, decode_tcp_response, encode_tcp_request, encode_udp_packet, decode_udp_packet,
}
use mytunnel.Protocol.Udp.{wire, view}
use mytunnel.Proxy.Tests.{test_net, test_map, at}
use mytunnel.Proxy.Udp.{Network, relay_packet, new_pool, lookup_failed}
use mytunnel.Server.Stream.{StreamEnv, handle_stream, format_target}
use mytunnel.Server.Stream.Requests.{
  request_bytes, handle_stream-encode_tcp_request, handle_stream-refused, handle_stream-unknown,
}
use mytunnel.Server.Stream.Inversion.{IsRequest, handle_stream-IsRequest}
use mytunnel.Server.Config.{TlsConfig}
use mytunnel.Server.Certs.{
  Pem, Files, load_or_generate_certs, Loaded, Generated, load_or_generate_certs_lem,
}
use mytunnel.Server.Datagram.{handle_datagram}
use mytunnel.Server.Datagram.Decoded.{handle_decoded, handle_datagram-decode_udp_packet}
use mytunnel.Server.Datagram.Replies.{handle_datagram-response, handle_datagram-silent}

abbrev host : Text
host = text "a.b"

abbrev accepting : StreamEnv
accepting = record { acks = true; connects = λ target. true; quic_reads = []; tcp_reads = [] }

abbrev refusing : StreamEnv
refusing = record accepting { connects = λ target. false }

host-utf8 : is_utf8 host ≡ true
unfolding is_utf8
host-utf8 = refl

reached :
    (handle_stream accepting Metrics.new (request_bytes tcp_connect host 80 [])).target
    ≡ some (format_target host 80)
unfolding handle_stream format_target is_utf8 to_decimal Tcp.proxy_stream
reached = refl

handle_stream-IsRequest_example :
    IsRequest (request_bytes tcp_connect host 80 []) (format_target host 80)
handle_stream-IsRequest_example =
    handle_stream-IsRequest accepting Metrics.new (request_bytes tcp_connect host 80 [])
      (format_target host 80) (omega arith) reached

handle_stream-encode_tcp_request_example :
    (sent : List ℕ) × (encode_tcp_request list_bytes host 80 ≡ ok sent)
    × ((handle_stream refusing Metrics.new (sent ++ [])).target ≡ some (format_target host 80))
    × (decode_tcp_response (handle_stream refusing Metrics.new (sent ++ [])).sent ≡ ok tt)
handle_stream-encode_tcp_request_example =
    handle_stream-encode_tcp_request list_bytes refusing Metrics.new host 80 [] host-utf8
      (omega arith) (omega arith) refl

handle_stream-refused_example :
    (handle_stream refusing Metrics.new (request_bytes tcp_connect host 80 [])).proxied ≡ none
handle_stream-refused_example =
    (handle_stream-refused refusing Metrics.new host 80 [] host-utf8 refl refl).1

handle_stream-unknown_example :
    (handle_stream accepting Metrics.new (request_bytes 2 host 80 [])).target ≡ none
handle_stream-unknown_example =
    (handle_stream-unknown accepting Metrics.new 2 host 80 [] host-utf8 (omega arith) refl).0

answered :
    (relay_packet test_net test_map
      (at 5)
      (format_target host 53)
      (1 ∷ [])
      (new_pool test_net test_map)).0
    ≡ ok (42 ∷ [])
unfolding relay_packet Assoc.get
answered = refl

handle_datagram-response_example :
    (sent : List ℕ) × (reply : List ℕ) × (encode_udp_packet list_bytes host 53 (1 ∷ []) ≡ ok sent)
    × ((handle_datagram test_net test_map (at 5) Metrics.new sent).sent ≡ some reply)
    × ((handle_datagram test_net test_map (at 5) Metrics.new sent).metrics
        ≡ datagram_tx Metrics.new)
    × (view list_bytes (decode_udp_packet list_bytes reply) ≡ ok (host, 53, 42 ∷ []))
handle_datagram-response_example =
    handle_datagram-response test_net test_map list_bytes (at 5) Metrics.new host 53 (1 ∷ [])
      (42 ∷ []) host-utf8 (omega arith) (omega arith) (omega arith) (omega arith) answered

-- A network on which no name can be looked up.
abbrev no_names : Network
no_names = record test_net { lookup_host = λ name. none }

handle_datagram-silent_example :
    handle_datagram no_names test_map (at 5) Metrics.new (wire host 53 (1 ∷ []))
    ≡ record { sent = none; metrics = Metrics.new; result = ok tt }
unfolding relay_packet Assoc.get
handle_datagram-silent_example =
    handle_datagram-silent no_names test_map (at 5) Metrics.new host 53 (1 ∷ []) lookup_failed
      host-utf8 (omega arith) refl

handle_datagram-decode_udp_packet_example :
    handle_datagram test_net test_map (at 5) Metrics.new (wire host 53 (1 ∷ []))
    ≡ handle_decoded test_net test_map
        (at 5)
        Metrics.new
        (view list_bytes (decode_udp_packet list_bytes (wire host 53 (1 ∷ []))))
handle_datagram-decode_udp_packet_example =
    handle_datagram-decode_udp_packet test_net test_map (at 5) Metrics.new list_bytes
      (wire host 53 (1 ∷ []))

-- Certificates and keys are the bytes of their files.
abbrev pem : Pem
pem = record {
  Cert = List ℕ;
  Key = List ℕ;
  certs = λ bytes. some (bytes ∷ []);
  private_key = λ bytes. some (some bytes);
  self_signed = some (1 ∷ [], 2 ∷ []);
}

-- Only the certificate's file is there.
abbrev files : Files
files path = if text_eq path (text "cert.pem") then some (some (7 ∷ [])) else none

abbrev tls : TlsConfig
tls = record { cert_path = text "cert.pem"; key_path = text "key.pem"; auto_generate = true }

generates : load_or_generate_certs pem files tls ≡ ok ((1 ∷ []) ∷ [], 2 ∷ [])
unfolding load_or_generate_certs text_eq
generates = refl

load_or_generate_certs_lem_example :
    Loaded pem files tls ((1 ∷ []) ∷ []) (2 ∷ []) ⊎ Generated pem files tls ((1 ∷ []) ∷ []) (2 ∷ [])
load_or_generate_certs_lem_example =
    load_or_generate_certs_lem pem files tls ((1 ∷ []) ∷ []) (2 ∷ []) generates
