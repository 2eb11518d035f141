-- ===== src/Router/Tests.antt =====
-- The routing policy at concrete requests.
use mytunnel.Prelude.{ℕ, ◌≡◌, refl, arith, true, false, inl, [], ◌∷◌, Text, text, contains}
use mytunnel.Router.{
  Request, RoutingPolicy, tcp_connect, default_policy, with_policy, any_host, decide, is_allowed,
  is_empty,
}
use mytunnel.Router.Decision.{Passes, Decides, is_allowed-Passes, Passes-is_allowed, decide-Decides}

abbrev request : Text → ℕ → Request ℕ
request host port = record {
  request_type = tcp_connect;
  target_host = host;
  target_port = port;
  source_addr = 0;
}

-- Port 25 is blocked.
abbrev no_smtp : RoutingPolicy
no_smtp = record default_policy { blocked_ports = 25 ∷ [] }

blocks_smtp : is_allowed (with_policy no_smtp) (request (text "example.com") 25) ≡ false
unfolding is_allowed decide any_host contains is_empty
blocks_smtp = refl

allows_https : is_allowed (with_policy no_smtp) (request (text "example.com") 443) ≡ true
unfolding is_allowed decide any_host contains is_empty
allows_https = refl

https-Passes : Passes no_smtp (request (text "example.com") 443)
https-Passes = record {
  host_free = tt;
  port_free = omega arith;
  port_listed = inl refl;
  by_default = refl;
}

is_allowed-Passes_example : Passes no_smtp (request (text "example.com") 443)
is_allowed-Passes_example =
    is_allowed-Passes (with_policy no_smtp) (request (text "example.com") 443) allows_https

Passes-is_allowed_example :
    is_allowed (with_policy no_smtp) (request (text "example.com") 443) ≡ true
Passes-is_allowed_example =
    Passes-is_allowed (with_policy no_smtp) (request (text "example.com") 443) https-Passes

decide-Decides_example :
    Decides no_smtp
      (request (text "example.com") 25)
      (decide no_smtp (request (text "example.com") 25))
decide-Decides_example = decide-Decides no_smtp (request (text "example.com") 25)
