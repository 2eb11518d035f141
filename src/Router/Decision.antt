-- ===== src/Router/Decision.antt =====
-- What the routing policy decides, as membership in its lists.
use mytunnel.Prelude.{
  ℕ, ◌≡◌, ◌≢◌, refl, sym, subst, ◌↔◌, ◌⊎◌, inl, inr, true, false, not, ◌&&◌, none, List, [], ◌∷◌,
  arith, Text, text, text_eq, text_eq_iff, text_eq_sound, contains, All, Bool-cases, if◌then◌else◌,
}
use mytunnel.Router.{
  Request, RouteDecision, RoutingPolicy, RequestRouter, allow, deny, any_host, decide, is_allowed,
  is_empty,
}

-- `x` is none of the entries of the list.
abbrev pub Absent {ℓ} : {A : Type ℓ} → A → List A → Type ℓ
Absent x = All (λ y. y ≢ x)

-- A request that the policy lets through: its host and port are blocked by no entry, its port is
-- in the allowed list if there is one, and the default is to allow.
pub record Passes {Addr : Type 0} (p : RoutingPolicy) (r : Request Addr) : Type 0 where
  pub host_free : Absent r.target_host p.blocked_hosts
  pub port_free : Absent r.target_port p.blocked_ports
  pub port_listed : (p.allowed_ports ≡ []) ⊎ ¬ Absent r.target_port p.allowed_ports
  pub by_default : p.default_allow ≡ true

any_host-Absent : (hs : List Text) (h : Text) → any_host hs h ≡ false → Absent h hs
unfolding any_host
any_host-Absent [] h e = tt
any_host-Absent (x ∷ hs) h e =
    ((λ p. ground (arith, text_eq_iff x h)), any_host-Absent hs h (ground arith))

Absent-any_host : (hs : List Text) (h : Text) → Absent h hs → any_host hs h ≡ false
unfolding any_host
Absent-any_host [] h a = refl
Absent-any_host (x ∷ hs) h a = elim (Bool-cases (text_eq x h)) [
  | inl e ↦ absurd (a.0 (text_eq_sound x h e))
  | inr e ↦ rw e (Absent-any_host hs h a.1)
]

contains-Absent : (ps : List ℕ) (n : ℕ) → contains ps n ≡ false → Absent n ps
unfolding contains
contains-Absent [] n e = tt
contains-Absent (x ∷ ps) n e = ((λ p. ground arith), contains-Absent ps n (ground arith))

Absent-contains : (ps : List ℕ) (n : ℕ) → Absent n ps → contains ps n ≡ false
unfolding contains
Absent-contains [] n a = refl
Absent-contains (x ∷ ps) n a = ground (arith, Absent-contains ps n a.1)

is_empty_iff : (xs : List ℕ) → (is_empty xs ≡ true) ↔ (xs ≡ [])
unfolding is_empty
is_empty_iff [] = (λ _. refl, λ _. refl)
is_empty_iff (x ∷ xs) = (λ e. cc, λ e. cc)

listed :
    (ps : List ℕ) (n : ℕ)
    → (not (is_empty ps) && not (contains ps n)) ≡ false
    → (ps ≡ []) ⊎ ¬ Absent n ps
listed ps n e = elim (Bool-cases (is_empty ps)) [
  | inl h ↦ inl ((is_empty_iff ps).0 h)
  | inr h ↦ inr (λ a. ground (arith, Absent-contains ps n a))
]

unlisted :
    (ps : List ℕ) (n : ℕ)
    → (ps ≡ []) ⊎ ¬ Absent n ps
    → (not (is_empty ps) && not (contains ps n)) ≡ false
unlisted ps n (inl e) = ground (arith, (is_empty_iff ps).1 e)
unlisted ps n (inr present) = elim (Bool-cases (contains ps n)) [
  | inl h ↦ ground arith
  | inr h ↦ absurd (present (contains-Absent ps n h))
]

-- A request that the router allows has a host and a port in no blocked list, a port in the allowed
-- list unless that is empty, and a policy that allows by default.
pub is_allowed-Passes :
    {Addr : Type 0} (router : RequestRouter) (r : Request Addr)
    → is_allowed router r ≡ true
    → Passes router.policy r
unfolding is_allowed decide
is_allowed-Passes router r e =
    let p = router.policy in
    record {
      host_free = any_host-Absent p.blocked_hosts r.target_host (ground arith);
      port_free = contains-Absent p.blocked_ports r.target_port (ground arith);
      port_listed = listed p.allowed_ports r.target_port (ground arith);
      by_default = ground arith;
    }

-- A request whose host and port are in no blocked list, and whose port is in the allowed list unless
-- that is empty, is allowed by a router whose policy allows by default.
pub Passes-is_allowed :
    {Addr : Type 0} (router : RequestRouter) (r : Request Addr)
    → Passes router.policy r
    → is_allowed router r ≡ true
unfolding is_allowed decide
Passes-is_allowed router r h =
    let p = router.policy in
    ground (
      arith,
      Absent-any_host p.blocked_hosts r.target_host h.host_free,
      Absent-contains p.blocked_ports r.target_port h.port_free,
      unlisted p.allowed_ports r.target_port h.port_listed,
    )

-- The decisions that the policy may take on a request, with what has to hold for each: the first
-- rule that the request breaks gives the reason of the refusal. No rule answers `rate_limited`.
pub data Decides {Addr : Type 0} (p : RoutingPolicy) (r : Request Addr)
    : RouteDecision → Type 0 where
  host_blocked :
      ¬ Absent r.target_host p.blocked_hosts → Decides p r (deny (text "Host is blocked"))
  port_blocked :
      Absent r.target_host p.blocked_hosts
      → ¬ Absent r.target_port p.blocked_ports
      → Decides p r (deny (text "Port is blocked"))
  port_unlisted :
      Absent r.target_host p.blocked_hosts
      → Absent r.target_port p.blocked_ports
      → p.allowed_ports ≢ []
      → Absent r.target_port p.allowed_ports
      → Decides p r (deny (text "Port not in allowed list"))
  default_allowed : Passes p r → Decides p r (allow none)
  default_denied :
      Absent r.target_host p.blocked_hosts
      → Absent r.target_port p.blocked_ports
      → (p.allowed_ports ≡ []) ⊎ ¬ Absent r.target_port p.allowed_ports
      → p.default_allow ≡ false
      → Decides p r (deny (text "Default deny policy"))

decide-default :
    {Addr : Type 0} (p : RoutingPolicy) (r : Request Addr)
    → Absent r.target_host p.blocked_hosts
    → Absent r.target_port p.blocked_ports
    → (p.allowed_ports ≡ []) ⊎ ¬ Absent r.target_port p.allowed_ports
    → Decides p r (if p.default_allow then allow none else deny (text "Default deny policy"))
decide-default p r h a l = elim (Bool-cases p.default_allow) [
  | inl e ↦
      subst (λ b. Decides p r (if b then allow none else deny (text "Default deny policy"))) (sym e)
        (default_allowed (record { host_free = h; port_free = a; port_listed = l; by_default = e }))
  | inr e ↦
      subst (λ b. Decides p r (if b then allow none else deny (text "Default deny policy"))) (sym e)
        (default_denied h a l e)
]

decide-ports :
    {Addr : Type 0} (p : RoutingPolicy) (r : Request Addr)
    → any_host p.blocked_hosts r.target_host ≡ false
    → contains p.blocked_ports r.target_port ≡ false
    → Decides p r (decide p r)
unfolding decide
decide-ports p r h a =
    let host_free = any_host-Absent p.blocked_hosts r.target_host h in
    let port_free = contains-Absent p.blocked_ports r.target_port a in
    elim (Bool-cases
      (not (is_empty p.allowed_ports) && not (contains p.allowed_ports r.target_port))) [
        | inl e ↦
            rw (h, a, e)
              (port_unlisted host_free port_free
                (λ none_listed. ground (arith, (is_empty_iff p.allowed_ports).1 none_listed))
                (contains-Absent p.allowed_ports r.target_port (ground arith)))
        | inr e ↦
            rw (h, a, e)
              (decide-default p r host_free port_free (listed p.allowed_ports r.target_port e))
      ]

-- On every request the decision is the one for which the policy's rules, read in the order blocked
-- host, blocked port, allowed ports, default, give the conditions; it is never `rate_limited`.
pub decide-Decides :
    {Addr : Type 0} (p : RoutingPolicy) (r : Request Addr) → Decides p r (decide p r)
unfolding decide
decide-Decides p r = elim (Bool-cases (any_host p.blocked_hosts r.target_host)) [
  | inl h ↦
      rw h (host_blocked (λ a. ground (arith, Absent-any_host p.blocked_hosts r.target_host a)))
  | inr h ↦ elim (Bool-cases (contains p.blocked_ports r.target_port)) [
    | inl a ↦
        rw (h, a)
          (port_blocked (any_host-Absent p.blocked_hosts r.target_host h)
            (λ f. ground (arith, Absent-contains p.blocked_ports r.target_port f)))
    | inr a ↦ decide-ports p r h a
  ]
]
