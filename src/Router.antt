-- ===== src/Router.antt =====
-- src/router/policy.rs and src/router/dispatcher.rs: requests, the routing policy and its decision.
pub mod Decision
pub mod Tests
use mytunnel.Prelude.{
  ℕ, Bool, true, false, not, ◌&&◌, ◌||◌, Option, none, List, [], ◌∷◌, Text, text, text_eq, contains,
  if◌then◌else◌,
}

-- `enum RequestType`
pub data RequestType : Type 0 where
  tcp_connect udp_relay dns_query : RequestType

-- `struct Request`; the source address is a `SocketAddr` of the type that the caller chooses.
pub record Request (Addr : Type 0) : Type 0 where
  pub request_type : RequestType
  pub target_host : Text
  pub target_port : ℕ
  pub source_addr : Addr

-- `enum RouteDecision`
pub data RouteDecision : Type 0 where
  allow : Option Text → RouteDecision
  deny : Text → RouteDecision
  rate_limited : RouteDecision

-- `struct RoutingPolicy`
pub record RoutingPolicy : Type 0 where
  pub default_allow : Bool
  pub blocked_hosts : List Text
  pub blocked_ports : List ℕ
  pub allowed_ports : List ℕ

-- `RoutingPolicy::default`
abbrev pub default_policy : RoutingPolicy
default_policy = record {
  default_allow = true;
  blocked_hosts = [];
  blocked_ports = [];
  allowed_ports = [];
}

-- `blocked_hosts.iter().any(|h| h == &host)`
unfoldable pub any_host : List Text → Text → Bool
any_host [] host = false
any_host (h ∷ hs) host = text_eq h host || any_host hs host

-- `is_empty`
unfoldable pub is_empty : List ℕ → Bool
is_empty [] = true
is_empty (x ∷ xs) = false

-- `RoutingPolicy::decide`
unfoldable pub decide : {Addr : Type 0} → RoutingPolicy → Request Addr → RouteDecision
decide p r =
    if any_host p.blocked_hosts r.target_host
    then deny (text "Host is blocked")
    else if contains p.blocked_ports r.target_port
    then deny (text "Port is blocked")
    else if not (is_empty p.allowed_ports) && not (contains p.allowed_ports r.target_port)
    then deny (text "Port not in allowed list")
    else if p.default_allow
    then allow none
    else deny (text "Default deny policy")

-- `struct RequestRouter`
pub record RequestRouter : Type 0 where
  pub policy : RoutingPolicy

-- `RequestRouter::new`
abbrev pub new : RequestRouter
new = record { policy = default_policy }

-- `RequestRouter::with_policy`
abbrev pub with_policy : RoutingPolicy → RequestRouter
with_policy p = record { policy = p }

-- `RequestRouter::route`
abbrev pub route : {Addr : Type 0} → RequestRouter → Request Addr → RouteDecision
route router r = decide router.policy r

-- `matches!(decision, RouteDecision::Allow { .. })`
abbrev matches_allow : RouteDecision → Bool
matches_allow (allow hint) = true
matches_allow (deny reason) = false
matches_allow rate_limited = false

-- `RequestRouter::is_allowed`
unfoldable pub is_allowed : {Addr : Type 0} → RequestRouter → Request Addr → Bool
is_allowed router r = matches_allow (route router r)
