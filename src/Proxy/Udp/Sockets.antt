-- ===== src/Proxy/Udp/Sockets.antt =====
-- The socket pool: when a socket is used again, and how old the entries get. Batches.
use mytunnel.Prelude.{
  ℕ, ◌*◌, ◌≤◌, ◌<◌, ◌≡◌, refl, Bool, true, Option, none, some, arith, ltb, lt→ltb, ltb→lt,
  le→not_ltb, ok, if◌then◌else◌,
}
use mytunnel.Dash.{DashMap, keep_if}
use mytunnel.Metrics.{Metrics}
use mytunnel.Proxy.Udp.{
  Network, Times, UdpSocketPool, elapsed, socket_ttl, cleanup_stale, fresh_socket, get_or_create,
}

module _ (net : Network) (dash : DashMap net.Addr (net.Socket × ℕ)) where
  open net use {Addr, Socket}

  -- The pool after a socket has been bound for `target`.
  abbrev with_socket : Times → Addr → Socket → UdpSocketPool net dash → UdpSocketPool net dash
  with_socket t target socket pool =
      cleanup_stale net dash t.cleaned
        (record { sockets = dash.insert target (socket, t.inserted) pool.sockets })

  keep_if-true : {V : Type 0} (p : V → Bool) (v : V) → p v ≡ true → keep_if p (some v) ≡ some v
  keep_if-true p v h = rw h

  get-with_socket :
      (t : Times) (target : Addr) (socket : Socket) (pool : UdpSocketPool net dash)
      → elapsed t.cleaned t.inserted < socket_ttl * 2
      → dash.get target (with_socket t target socket pool).sockets ≡ some (socket, t.inserted)
  unfolding cleanup_stale
  get-with_socket t target socket pool h = rw (dash.get-retain, dash.get-insert_self, lt→ltb _ _ h)

  -- The pool has no socket for the target that is young enough to use.
  abbrev pub NoFresh : ℕ → Addr → UdpSocketPool net dash → Type 0
  NoFresh now target pool =
      (socket : Socket) (used : ℕ)
      → dash.get target pool.sockets ≡ some (socket, used)
      → socket_ttl ≤ elapsed now used

  fresh_socket-none :
      (now : ℕ) (entry : Option (Socket × ℕ))
      → ((socket : Socket) (used : ℕ) → entry ≡ some (socket, used) → socket_ttl ≤ elapsed now used)
      → fresh_socket net dash now entry ≡ none
  unfolding fresh_socket
  fresh_socket-none now none h = refl
  fresh_socket-none now (some (socket, used)) h = rw (le→not_ltb _ _ (h socket used refl))

  get_or_create_new :
      (t : Times) (target : Addr) (pool : UdpSocketPool net dash) (socket : Socket)
      → NoFresh t.checked target pool
      → net.bind t.inserted (if net.is_ipv4 target then net.any_v4 else net.any_v6) ≡ some socket
      → get_or_create net dash t target pool ≡ (ok socket, with_socket t target socket pool)
  unfolding get_or_create
  get_or_create_new t target pool socket absent bound =
      ground (arith, fresh_socket-none t.checked (dash.get target pool.sockets) absent)

  get_or_create_found :
      (t : Times) (target : Addr) (pool : UdpSocketPool net dash) (socket : Socket) (used : ℕ)
      → dash.get target pool.sockets ≡ some (socket, used)
      → elapsed t.checked used < socket_ttl
      → get_or_create net dash t target pool ≡ (ok socket, pool)
  unfolding get_or_create
  get_or_create_found t target pool socket used held soon = ground arith

  -- A socket that `get_or_create` has bound, as there was no fresh one, serves the next call for the
  -- same target that comes less than the time to live later, which leaves the pool as it is; provided
  -- the cleanup behind the binding came less than twice that time after the insertion.
  pub get_or_create_again :
      (t later : Times) (target : Addr) (pool : UdpSocketPool net dash) (socket : Socket)
      → NoFresh t.checked target pool
      → net.bind t.inserted (if net.is_ipv4 target then net.any_v4 else net.any_v6) ≡ some socket
      → elapsed t.cleaned t.inserted < socket_ttl * 2
      → elapsed later.checked t.inserted < socket_ttl
      → let (found, pool') = get_or_create net dash t target pool in
        (found ≡ ok socket) × (get_or_create net dash later target pool' ≡ (ok socket, pool'))
  get_or_create_again t later target pool socket absent bound cleaned soon =
      rw (get_or_create_new t target pool socket absent bound) (
        refl,
        get_or_create_found later target (with_socket t target socket pool) socket t.inserted
            (get-with_socket t target socket pool cleaned) soon,
      )

  keep_if-some :
      {V : Type 0} (p : V → Bool) (entry : Option V) (v : V)
      → keep_if p entry ≡ some v
      → (entry ≡ some v) × (p v ≡ true)
  keep_if-some p none v h = cc
  keep_if-some p (some w) v h = ground arith

  create_socket-young :
      (t : Times) (target key : Addr) (pool : UdpSocketPool net dash) (fresh socket : Socket)
      (used : ℕ)
      → dash.get key (with_socket t target fresh pool).sockets ≡ some (socket, used)
      → elapsed t.cleaned used < socket_ttl * 2
  unfolding cleanup_stale
  create_socket-young t target key pool fresh socket used h =
      ltb→lt _ _
        (keep_if-some (λ entry. ltb (elapsed t.cleaned entry.1) (socket_ttl * 2)) _ (socket, used)
          (rw dash.get-retain at h)).1

  -- Binding a new socket leaves no entry in the pool, for any address, that is as old as twice the
  -- time to live when the pool is cleaned.
  pub get_or_create-young :
      (t : Times) (target key : Addr) (pool : UdpSocketPool net dash) (fresh socket : Socket)
      (used : ℕ)
      → NoFresh t.checked target pool
      → net.bind t.inserted (if net.is_ipv4 target then net.any_v4 else net.any_v6) ≡ some fresh
      → dash.get key (get_or_create net dash t target pool).1.sockets ≡ some (socket, used)
      → elapsed t.cleaned used < socket_ttl * 2
  get_or_create-young t target key pool fresh socket used absent bound h =
      create_socket-young t target key pool fresh socket used
        (rw (get_or_create_new t target pool fresh absent bound) at h)
