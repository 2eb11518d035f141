-- ===== src/Proxy/Tests.antt =====
-- A network of numbers, and the theorems on the proxies at concrete inputs.
use native.Mathlib.Decide.{ℕ_discrete}
use mytunnel.Prelude.{ℕ, ◌*◌, ◌≡◌, ◌<◌, refl, true, some, [], ◌∷◌, arith, ok}
use mytunnel.Dash.{DashMap}
use mytunnel.Dash.Assoc.{assoc_map}
use mytunnel.Dash.Assoc
use mytunnel.Metrics.{Metrics}
use mytunnel.Metrics
use mytunnel.Proxy.Tcp.{chunk, all, broken, proxy_userspace}
use mytunnel.Proxy.Tcp.Delivery.{Delivers, proxy_userspace-Delivers}
use mytunnel.Proxy.Tcp.Splice
use mytunnel.Proxy.Tcp.Splice.{received, splice_tcp_to_tcp, splice_tcp_to_tcp-Delivers}
use mytunnel.Proxy.Udp.{Network, Times, new_pool, get_or_create, packet, socket_ttl}
use mytunnel.Proxy.Udp.Sockets.{NoFresh, get_or_create_again, get_or_create-young}

-- Addresses are numbers; a socket is the time at which it was bound, and answers with one byte.
abbrev pub test_net : Network
test_net = record {
  Addr = ℕ;
  Socket = ℕ;
  is_ipv4 = λ a. true;
  any_v4 = 0;
  any_v6 = 1;
  lookup_host = λ name. some (9 ∷ []);
  bind = λ now a. some now;
  send_to = λ socket bytes a. true;
  receive = λ socket. packet (42 ∷ []);
}

abbrev pub test_map : DashMap ℕ (ℕ × ℕ)
test_map = assoc_map (ℕ × ℕ) ℕ_discrete

abbrev pub at : ℕ → Times
at now = record { checked = now; inserted = now; cleaned = now }

proxy_userspace-Delivers_example :
    Delivers
      ((chunk (1 ∷ 2 ∷ []), all) ∷ [])
      ((chunk (3 ∷ 4 ∷ []), broken 1) ∷ [])
      (proxy_userspace
        ((chunk (1 ∷ 2 ∷ []), all) ∷ (chunk (3 ∷ 4 ∷ []), broken 1) ∷ [])
        []
        Metrics.new).to_target
proxy_userspace-Delivers_example =
    (proxy_userspace-Delivers ((chunk (1 ∷ 2 ∷ []), all) ∷ []) ((chunk (3 ∷ 4 ∷ []), broken 1) ∷ [])
      [] [] Metrics.new (refl, tt) tt tt tt (omega arith) (omega arith)).0

none_fresh : NoFresh test_net test_map 5 9 (new_pool test_net test_map)
none_fresh socket used e = let q = test_map.get-empty 9 in absurd cc

-- The second call, a second later, finds the socket of the first.
get_or_create_again_example :
    (get_or_create test_net test_map (at 5) 9 (new_pool test_net test_map)).0 ≡ ok 5
get_or_create_again_example =
    (get_or_create_again test_net test_map (at 5) (at 1000000005) 9 (new_pool test_net test_map) 5
      none_fresh refl (omega arith) (omega arith)).0

get_or_create-young_example : 0 < socket_ttl * 2
unfolding get_or_create Assoc.get Assoc.dedup Assoc.without Assoc.filter_by ℕ_discrete
get_or_create-young_example =
    get_or_create-young test_net test_map (at 5) 9 9 (new_pool test_net test_map) 5 5 5 none_fresh
      refl refl

splice_tcp_to_tcp-Delivers_example : Splice.Delivers (1 ∷ 2 ∷ 3 ∷ []) (
    splice_tcp_to_tcp
      (some (1 ∷ 2 ∷ []) ∷ some (3 ∷ []) ∷ some [] ∷ [])
      (some 1 ∷ some 1 ∷ some 5 ∷ []))
unfolding received
splice_tcp_to_tcp-Delivers_example =
    splice_tcp_to_tcp-Delivers (some (1 ∷ 2 ∷ []) ∷ some (3 ∷ []) ∷ some [] ∷ [])
      (some 1 ∷ some 1 ∷ some 5 ∷ [])
