-- ===== src/Client/Socks5/Tests.antt =====
-- The SOCKS5 proxy at concrete connections.
use mytunnel.Prelude.{
  ◌≡◌, refl, true, false, none, some, [], ◌∷◌, arith, Text, text, is_utf8, ok, err, is_ok, contains,
}
use mytunnel.Bytes.{list_bytes}
use mytunnel.Metrics
use mytunnel.Protocol.Socks5.{
  v4, version, auth_none, auth_no_acceptable, cmd_connect, cmd_bind, cmd_udp_associate, rep_success,
  rep_cmd_not_supported, encode_reply, zero_bind_addr_v4,
}
use mytunnel.Protocol.Socks5.Address.{domain, ipv4}
use mytunnel.Client.Tests.{host, server, tunnel}
use mytunnel.Client.Socks5.{LocalEnv, handle_socks5_client, no_acceptable_method}
use mytunnel.Client.Socks5.Session.{greeting, request, handle_socks5_client-unacceptable}
use mytunnel.Client.Socks5.Relay.{
  Relays, handle_socks5_client-Relays, handle_socks5_client-unsupported,
  handle_socks5_client-associates,
}
use mytunnel.Client.Socks5.Answers.{Answers, handle_socks5_client-Answers}

abbrev local : LocalEnv
local = record {
  selects = true;
  replies = true;
  associates = true;
  local_addr = some (v4 127 0 0 1 5000);
}

abbrev unprinted : Text → Text
unprinted octets = []

handle_socks5_client-unacceptable_example :
    handle_socks5_client list_bytes unprinted local tunnel (greeting (2 ∷ []) []) ≡ record {
      sent = version ∷ auth_no_acceptable ∷ [];
      request = none;
      proxied = none;
      associated = none;
      result = err no_acceptable_method;
    }
unfolding contains
handle_socks5_client-unacceptable_example =
    handle_socks5_client-unacceptable list_bytes unprinted local tunnel (2 ∷ []) [] refl refl

handle_socks5_client-Relays_example :
    Relays list_bytes unprinted server Metrics.new local tunnel
      (version ∷ auth_none ∷ [])
      host
      443
      (text "hello")
      (handle_socks5_client list_bytes unprinted local tunnel
        (greeting (2 ∷ 0 ∷ []) (request cmd_connect 0 (domain host) 443 (text "hello"))))
unfolding contains is_utf8
handle_socks5_client-Relays_example =
    handle_socks5_client-Relays list_bytes unprinted server Metrics.new local tunnel (2 ∷ 0 ∷ []) 0
      (domain host) 443 (text "hello") refl (omega arith, refl) refl (omega arith) (omega arith)
      refl refl refl refl refl refl

handle_socks5_client-unsupported_example :
    let h =
      handle_socks5_client list_bytes unprinted local tunnel
        (greeting (0 ∷ []) (request cmd_bind 0 (ipv4 10 0 0 1) 80 [])) in
    (h.sent ≡ version ∷ auth_none ∷ encode_reply list_bytes rep_cmd_not_supported zero_bind_addr_v4)
    × (h.request ≡ none)
    × (h.proxied ≡ none)
    × (h.associated ≡ none)
    × (is_ok h.result ≡ false)
unfolding contains
handle_socks5_client-unsupported_example =
    handle_socks5_client-unsupported list_bytes unprinted local tunnel (0 ∷ []) cmd_bind 0
      (ipv4 10 0 0 1) 80 [] refl tt (omega arith) (omega arith) refl refl

handle_socks5_client-associates_example :
    let h =
      handle_socks5_client list_bytes unprinted local tunnel
        (greeting (0 ∷ []) (request cmd_udp_associate 0 (ipv4 0 0 0 0) 0 [])) in
    (h.sent ≡ version ∷ auth_none ∷ encode_reply list_bytes rep_success (v4 127 0 0 1 5000))
    × (h.associated ≡ some (v4 127 0 0 1 5000))
    × (h.request ≡ none)
    × (h.result ≡ ok tt)
unfolding contains
handle_socks5_client-associates_example =
    handle_socks5_client-associates list_bytes unprinted local tunnel (0 ∷ []) 0 (ipv4 0 0 0 0) 0 []
      (v4 127 0 0 1 5000) refl tt refl refl refl refl

handle_socks5_client-Answers_example :
    Answers list_bytes (handle_socks5_client list_bytes unprinted local tunnel (5 ∷ 1 ∷ 0 ∷ []))
handle_socks5_client-Answers_example =
    handle_socks5_client-Answers list_bytes unprinted local tunnel (5 ∷ 1 ∷ 0 ∷ [])
