-- ===== src/Lib.antt =====
-- MyTunnel.
--
-- A tunnel over QUIC. The server (src/) keeps its connections in a slab, relays TCP streams and UDP
-- datagrams to their targets, and exports counters; the client (mytunnel-client/src/) offers a SOCKS5 and
-- an HTTP CONNECT proxy whose connections become streams and datagrams of the tunnel. Both speak the format
-- of mytunnel-client/src/protocol.rs, which src/server/acceptor.rs decodes by hand.
--
-- The parts and their files:
-- - Prelude: numbers, lists, results, 16-bit and 64-bit words, and text (its bytes, UTF-8, decimal numbers,
--   splitting, white space, lines) as the standard library of Rust treats them.
-- - Bytes, Dash: the interfaces of the `bytes` and `dashmap` crates, with their documented laws, and an
--   instance of each.
-- - Router: src/router/policy.rs and src/router/dispatcher.rs.
-- - Protocol: mytunnel-client/src/protocol.rs, with its `socks5` module.
-- - Pool/Bits and Pool/Slab: src/pool/slab.rs. Pool/Buffer: src/pool/buffer.rs, over crossbeam's queue.
-- - Metrics, Metrics/Export, Metrics/Api: src/metrics/counters.rs, src/metrics/exporter.rs and the requests
--   of src/metrics/api.rs.
-- - Proxy/Tcp, Proxy/Udp: src/proxy/tcp.rs, src/proxy/udp.rs; Proxy/Tcp also stands for the copying loops of
--   mytunnel-client/src/tunnel/stream.rs, and Proxy/Tcp/Splice is `SpliceProxy`.
-- - Connection/State, Connection: src/connection/state.rs and src/connection/manager.rs, on Pool/Slab, Dash
--   and Metrics. Connection/History has the manager's calls as data, and their runs.
-- - Server/Handler, Server/Stream, Server/Datagram: `ConnectionHandler`, `StreamHandler` and
--   `DatagramHandler` of src/server/acceptor.rs, on Connection, Proxy and Metrics.
-- - Server/Listener: `Server` of src/server/listener.rs, its accept loop, the handlers that it spawns, the
--   cleanup task and the shutdown, as a schedule of actions on the manager and the tasks; with the waiting
--   loop of `drain` of src/connection/manager.rs. Server/Certs: its `load_or_generate_certs`. Server/Config:
--   src/config.rs.
-- - Client: mytunnel-client/src/tunnel/stream.rs. Client/Http: mytunnel-client/src/proxy/http.rs.
--   Client/Socks5: mytunnel-client/src/proxy/socks5.rs. Client/Udp: mytunnel-client/src/tunnel/datagram.rs.
--   Client/Connection: mytunnel-client/src/tunnel/connection.rs. Client/Config: mytunnel-client/src/config.rs.
--   They stand on Protocol; Client/Establish and the modules Relay put them against the server's handlers.
--
-- How the code is represented: a method that changes an object takes its state and returns the new one, an
-- error is a value of a result type, and a 64-bit or 16-bit number wraps around by a remainder. A method
-- is one step: no other task runs between its accesses, so a compare-and-swap succeeds at once and a lock
-- is free. Where tasks wait for each other they are cut into such steps, and a schedule is the list of
-- them. Text is the list of its bytes, and what needs UTF-8 tests for it. What a socket, the tunnel or a
-- clock does is a parameter: a list of reads with, for each, what becomes of the write of its data, which
-- may fail after some of the bytes, a function from a request to the bytes that come back, or the time. The
-- short replies of the proxies and the status byte of the server are written whole or not at all. A
-- handler's result also records what it has sent and to which target it has tried to connect. Every loop
-- goes over a list or a count, so no fuel is used; the copying loops go over the list of reads, past whose
-- end a loop waits for its next read and has not ended; the waiting loop of `drain` goes over its rounds of
-- 100 ms, of which 300 reach its timeout of 30 seconds.
--
-- Not modelled: the binaries, the command line, the TLS set-up and the QUIC settings, the log, the socket
-- options, io_uring and the system call of `BatchedUdpSender`, which act on the system only; the accept
-- loops of the client's proxies and of the HTTP interface, which only start a task for each connection; and
-- two tasks of the client that renew the connection at the same time.
pub mod Prelude
pub mod Bytes
pub mod Dash
pub mod Router
pub mod Protocol
pub mod Pool
pub mod Metrics
pub mod Proxy
pub mod Connection
pub mod Server
pub mod Client
