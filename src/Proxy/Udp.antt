-- ===== src/Proxy/Udp.antt =====
-- src/proxy/udp.rs: the UDP relay and its pool of sockets. The network and the clock are parameters:
-- what resolving, binding, sending and receiving return, and when the clock is read (in nanoseconds).
-- `BatchedUdpSender`, unsafe code around a system call that nothing uses, is not modelled.
pub mod Sockets
use mytunnel.Prelude.{
  ℕ, ◌+◌, ◌-◌, ◌*◌, Bool, true, false, Option, none, some, List, [], ◌∷◌, take, ltb, Text,
  if◌then◌else◌, Result, ok, err, ◌>>=◌,
}
use mytunnel.Dash.{DashMap}
use mytunnel.Metrics.{Metrics, datagram_tx}

-- `MAX_BATCH_SIZE`
abbrev pub max_batch_size : ℕ
max_batch_size = 64

-- `SOCKET_TTL`
abbrev pub socket_ttl : ℕ
socket_ttl = 60 * 1000000000

-- `Instant::elapsed`, which saturates.
abbrev pub elapsed : ℕ → ℕ → ℕ
elapsed now since = now - since

pub data Error : Type 0 where
  lookup_failed : Error
  resolve_failed : Text → Error
  bind_failed : Error
  send_failed : Error
  receive_failed : Error
  response_timeout : Error

-- What a wait for a response ends with: a packet, an error of the socket, or the timeout.
pub data Reply : Type 0 where
  packet : List ℕ → Reply
  socket_error : Reply
  timed_out : Reply

-- The network: addresses, sockets, and what the system calls return.
pub record Network : Type 1 where
  pub Addr : Type 0
  pub Socket : Type 0
  pub is_ipv4 : Addr → Bool
  pub any_v4 : Addr
  pub any_v6 : Addr
  pub lookup_host : Text → Option (List Addr)
  -- by the time of the call: each call opens another socket
  pub bind : ℕ → Addr → Option Socket
  pub send_to : Socket → List ℕ → Addr → Bool
  pub receive : Socket → Reply

-- When one call reads the clock: at the check of an entry, at the insertion, at the cleanup.
pub record Times : Type 0 where
  pub checked : ℕ
  pub inserted : ℕ
  pub cleaned : ℕ

module _ (net : Network) (dash : DashMap net.Addr (net.Socket × ℕ)) where
  open net use {Addr, Socket}

  -- `struct UdpSocketPool`
  pub record UdpSocketPool : Type 0 where
    pub sockets : dash.Map

  -- `UdpSocketPool::new`
  abbrev pub new_pool : UdpSocketPool
  new_pool = record { sockets = dash.empty }

  -- `UdpSocketPool::cleanup_stale`
  unfoldable pub cleanup_stale : ℕ → UdpSocketPool → UdpSocketPool
  cleanup_stale now pool = record {
    sockets = dash.retain (λ _ entry. ltb (elapsed now entry.1) (socket_ttl * 2)) pool.sockets;
  }

  -- The check for an existing socket in `get_or_create`.
  fresh_socket : ℕ → Option (Socket × ℕ) → Option Socket
  fresh_socket now none = none
  fresh_socket now (some (socket, last_used)) =
      if ltb (elapsed now last_used) socket_ttl then some socket else none

  -- Binding, inserting and cleaning up, in `get_or_create`.
  create_socket : Times → Addr → UdpSocketPool → Result Error Socket × UdpSocketPool
  unfolding cleanup_stale
  create_socket t target pool =
      elim (net.bind t.inserted (if net.is_ipv4 target then net.any_v4 else net.any_v6)) [
        | none ↦ (err bind_failed, pool)
        | some socket ↦ (
          ok socket,
          cleanup_stale t.cleaned
              (record { sockets = dash.insert target (socket, t.inserted) pool.sockets }),
        )
      ]

  -- `UdpSocketPool::get_or_create`
  unfoldable pub get_or_create : Times → Addr → UdpSocketPool → Result Error Socket × UdpSocketPool
  unfolding fresh_socket create_socket
  get_or_create t target pool = elim (fresh_socket t.checked (dash.get target pool.sockets)) [
    | some socket ↦ (ok socket, pool)
    | none ↦ create_socket t target pool
  ]

  -- The response of `relay_packet`: `truncate(n)` of the buffer leaves the packet.
  response_of : Reply → Result Error (List ℕ)
  response_of (packet bytes) = ok bytes
  response_of socket_error = err receive_failed
  response_of timed_out = err response_timeout

  send_and_wait : List ℕ → Addr → Result Error Socket → Result Error (List ℕ)
  unfolding response_of
  send_and_wait bytes target (err e) = err e
  send_and_wait bytes target (ok socket) =
      if net.send_to socket bytes target then response_of (net.receive socket) else err send_failed

  -- `UdpRelay::relay_packet`
  unfoldable pub relay_packet :
      Times → Text → List ℕ → UdpSocketPool → Result Error (List ℕ) × UdpSocketPool
  unfolding send_and_wait get_or_create
  relay_packet t target bytes pool = elim (net.lookup_host target) [
    | none ↦ (err lookup_failed, pool)
    | some [] ↦ (err (resolve_failed target), pool)
    | some (target_addr ∷ _) ↦
        let (socket, pool') = get_or_create t target_addr pool in
        (send_and_wait bytes target_addr socket, pool')
  ]

  -- The loop of `relay_batch`: a socket that cannot be bound ends it with the error, and a packet that
  -- cannot be sent is skipped.
  batch_loop :
      List (Times × Addr × List ℕ)
      → ℕ
      → UdpSocketPool
      → Metrics
      → Result Error ℕ × UdpSocketPool × Metrics
  batch_loop [] sent pool m = (ok sent, pool, m)
  batch_loop ((t, target, bytes) ∷ rest) sent pool m =
      let (found, pool') = get_or_create t target pool in
      elim found [
        | err e ↦ (err e, pool', m)
        | ok socket ↦ elim (net.send_to socket bytes target) [
          | true ↦ batch_loop rest (sent + 1) pool' (datagram_tx m)
          | false ↦ batch_loop rest sent pool' m
        ]
      ]

  -- `UdpRelay::relay_batch`; each packet comes with the times of its `get_or_create`.
  unfoldable pub relay_batch :
      List (Times × Addr × List ℕ)
      → UdpSocketPool
      → Metrics
      → Result Error ℕ × UdpSocketPool × Metrics
  unfolding batch_loop
  relay_batch packets pool m = batch_loop (take max_batch_size packets) 0 pool m
