-- ===== src/Client/Udp/Justified.antt =====
-- What a UDP association of mytunnel-client/src/tunnel/datagram.rs may send, against what has arrived.
use native.Mathlib.Decide.{ℕ_discrete}
use mytunnel.Prelude.{
  ℕ, ◌≡◌, refl, ap, Option, none, some, List, [], ◌∷◌, ◌++◌, drop, All, Text, ok,
}
use mytunnel.Bytes.{BytesCrate}
use mytunnel.Protocol.{encode_udp_packet, decode_udp_packet}
use mytunnel.Protocol.Udp.{view}
use mytunnel.Protocol.Socks5.{SocketAddr}
use mytunnel.Client.Udp.{
  Target, Sent, to_tunnel, to_local, Event, from_local, from_tunnel, local_failed, tunnel_failed,
  read_header, response,
}

head_or : ℕ → List ℕ → ℕ
head_or x [] = x
head_or x (y ∷ ys) = y

tail_of : List ℕ → List ℕ
tail_of [] = []
tail_of (y ∷ ys) = ys

unfoldable both_same :
    (x y : ℕ) (xs ys : List ℕ)
    → Dec (x ≡ y)
    → Dec (xs ≡ ys)
    → Dec (◌≡◌ {A = List ℕ} (x ∷ xs) (y ∷ ys))
unfolding head_or tail_of
both_same x y xs ys (yes p) (yes q) = yes (λ i. p i ∷ q i)
both_same x y xs ys (yes p) (no q) = no (λ e. q (ap tail_of e))
both_same x y xs ys (no p) q = no (λ e. p (ap (head_or x) e))

unfoldable pub Text_discrete : Discrete Text
unfolding both_same
Text_discrete [] [] = yes refl
Text_discrete [] (y ∷ ys) = no (λ e. cc)
Text_discrete (x ∷ xs) [] = no (λ e. cc)
Text_discrete (x ∷ xs) (y ∷ ys) = both_same x y xs ys (ℕ_discrete x y) (Text_discrete xs ys)

unfoldable pair_same :
    (j k : Target) → Dec (j.0 ≡ k.0) → Dec (j.1 ≡ k.1) → Dec (◌≡◌ {A = Target} j k)
pair_same j k (yes p) (yes q) = yes (λ i. (p i, q i))
pair_same j k (yes p) (no q) = no (λ e. q (ap (λ t. t.1) e))
pair_same j k (no p) q = no (λ e. p (ap (λ t. t.0) e))

unfoldable pub Target_discrete : Discrete Target
unfolding pair_same
Target_discrete j k = pair_same j k (Text_discrete j.0 k.0) (ℕ_discrete j.1 k.1)

abbrev pub target_of : Option (Target × ℕ) → Option Target
target_of none = none
target_of (some (target, start)) = some target

module _ (show_ipv6 : Text → Text) where
  -- The target that an event asks for: that of a local datagram whose header can be read.
  abbrev pub asked_for : Event → Option Target
  asked_for (from_local buf client noted cleaned) = target_of (read_header show_ipv6 buf)
  asked_for (from_tunnel packet) = none
  asked_for local_failed = none
  asked_for tunnel_failed = none

  -- In these events, the last to ask for the target is the client: no event after its datagram does.
  pub record HasAsked (events : List Event) (target : Target) (client : SocketAddr) : Type 0 where
    pub buf : List ℕ
    pub noted : ℕ
    pub cleaned : ℕ
    pub earlier : List Event
    pub since : List Event
    pub split : events ≡ earlier ++ from_local buf client noted cleaned ∷ since
    pub asked : asked_for (from_local buf client noted cleaned) ≡ some target
    pub latest : All (λ e. ¬ (asked_for e ≡ some target)) since

module _ (bytes : BytesCrate) (show_ipv6 : Text → Text) where
  -- A packet that arrived from the tunnel, after the events `before`, is the packet of the datagram, and
  -- the client was then the last that had asked for its host and port.
  pub record IsResponse (events : List Event) (datagram : List ℕ) (client : SocketAddr)
      : Type 0 where
    pub before : List Event
    pub packet : List ℕ
    pub after : List Event
    pub host : Text
    pub port : ℕ
    pub payload : List ℕ
    pub split : events ≡ before ++ from_tunnel packet ∷ after
    pub decoded :
        view bytes (decode_udp_packet bytes (bytes.from_vec packet)) ≡ ok (host, port, payload)
    pub made : datagram ≡ response host port payload
    pub asked : HasAsked show_ipv6 before (host, port) client

  -- A local datagram has a header, and the packet is that of its target and its payload.
  pub record IsRequest (events : List Event) (packet : List ℕ) : Type 0 where
    pub before : List Event
    pub buf : List ℕ
    pub client : SocketAddr
    pub noted : ℕ
    pub cleaned : ℕ
    pub after : List Event
    pub host : Text
    pub port : ℕ
    pub start : ℕ
    pub split : events ≡ before ++ from_local buf client noted cleaned ∷ after
    pub header : read_header show_ipv6 buf ≡ some ((host, port), start)
    pub encoded : encode_udp_packet bytes host port (drop start buf) ≡ ok packet

  -- What is sent, each with what arrived.
  abbrev pub IsJustified : List Event → Sent → Type 0
  IsJustified events (to_tunnel packet) = IsRequest events packet
  IsJustified events (to_local datagram client) = IsResponse events datagram client
