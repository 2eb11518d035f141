-- ===== src/Proxy/Tcp.antt =====
-- src/proxy/tcp.rs: forwarding between a QUIC stream and a TCP socket. What a socket does enters as the
-- list of the reads that a loop makes, each with what becomes of the write of its data. Also the two
-- loops of `proxy_bidirectional` in mytunnel-client/src/tunnel/stream.rs, which count no metrics.
pub mod Delivery
pub mod Splice
use mytunnel.Prelude.{
  ℕ, ◌+◌, Bool, true, false, List, [], ◌∷◌, ◌++◌, length, take, if◌then◌else◌, ◌==◌, Text, Result,
  ok, err, wrapping_add,
}
use mytunnel.Metrics.{Metrics}
use mytunnel.Metrics

-- A read: `Ok(Some(n))` or `Ok(n)` with the n bytes, `Ok(None)`, or `Err(_)`.
pub data Read : Type 0 where
  chunk : List ℕ → Read
  eof : Read
  failed : Read

-- What a `write_all` does: it writes all of the data, or fails once so many bytes of it are written.
pub data Write : Type 0 where
  all : Write
  broken : ℕ → Write

-- Where a loop has got to: what it has written, its `total`, the counters, and whether it has ended
-- (else it waits for its next read).
pub record Copied (S : Type 0) : Type 0 where
  pub written : List ℕ
  pub total : ℕ
  pub counters : S
  pub ended : Bool

-- The loop that all four directions share: read, write all, add to `total` (a `u64`) and count.
unfoldable pub copy_loop : {S : Type 0} → (ℕ → S → S) → List (Read × Write) → ℕ → S → Copied S
unfolding wrapping_add
copy_loop count [] total s = record { written = []; total = total; counters = s; ended = false }
copy_loop count ((eof, w) ∷ rest) total s = record {
  written = [];
  total = total;
  counters = s;
  ended = true;
}
copy_loop count ((failed, w) ∷ rest) total s = record {
  written = [];
  total = total;
  counters = s;
  ended = true;
}
copy_loop count ((chunk bytes, broken k) ∷ rest) total s = record {
  written = take k bytes;
  total = total;
  counters = s;
  ended = true;
}
copy_loop count ((chunk bytes, all) ∷ rest) total s =
    let n = length bytes in
    let next = copy_loop count rest (wrapping_add total n) (count n s) in
    let stop : Copied _ = record { written = []; total = total; counters = s; ended = true } in
    let go_on : Copied _ = record next { written = bytes ++ next.written } in
    if n == 0 then stop else go_on

-- What `proxy_userspace` has done: both directions, the counters, and whether it has finished the
-- QUIC send stream.
pub record Proxied : Type 0 where
  pub to_target : Copied Metrics
  pub to_client : Copied Metrics
  pub send_finished : Bool

-- `TcpProxy::proxy_userspace`. The directions run concurrently and touch different counters.
unfoldable pub proxy_userspace : List (Read × Write) → List (Read × Write) → Metrics → Proxied
unfolding copy_loop
proxy_userspace quic_reads tcp_reads m =
    let client_to_target = copy_loop Metrics.bytes_rx quic_reads 0 m in
    let target_to_client = copy_loop Metrics.bytes_tx tcp_reads 0 client_to_target.counters in
    record {
      to_target = client_to_target;
      to_client = target_to_client;
      send_finished = target_to_client.ended;
    }

-- `TcpProxy::proxy_with_splice` falls through to the loops of `proxy_userspace`.
unfoldable pub proxy_with_splice : List (Read × Write) → List (Read × Write) → Metrics → Proxied
unfolding proxy_userspace
proxy_with_splice = proxy_userspace

pub data Error : Type 0 where
  connect_failed : Text → Error

-- `TcpProxy::proxy_stream` on Linux; `connects` says whether `TcpStream::connect(target)` succeeds.
unfoldable pub proxy_stream :
    (Text → Bool)
    → Text
    → List (Read × Write)
    → List (Read × Write)
    → Metrics
    → Result Error Proxied
unfolding proxy_with_splice
proxy_stream connects target quic_reads tcp_reads m =
    if connects target
    then ok (proxy_with_splice quic_reads tcp_reads m)
    else err (connect_failed target)

-- `proxy_bidirectional` of the client: both directions with their totals; the send stream is finished
-- and the local socket shut down when the direction that writes to it ends.
unfoldable pub proxy_bidirectional :
    List (Read × Write) → List (Read × Write) → Copied (Unit {0}) × Copied (Unit {0})
unfolding copy_loop
proxy_bidirectional local_reads quic_reads =
    (copy_loop (λ _ s. s) local_reads 0 tt, copy_loop (λ _ s. s) quic_reads 0 tt)
