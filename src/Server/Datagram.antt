-- ===== src/Server/Datagram.antt =====
-- `DatagramHandler` of src/server/acceptor.rs: one datagram, which carries a UDP packet to relay. Each
-- datagram makes a relay of its own, with an empty pool of sockets.
pub mod Replies
pub mod Decoded
use mytunnel.Prelude.{
  ℕ, ◌+◌, List, ◌∷◌, ◌++◌, Option, none, some, length, take, drop, get_or, ltb, if◌then◌else◌, Text,
  is_utf8, as_u8, to_be_bytes, from_be_bytes, Result, ok, err,
}
use mytunnel.Dash.{DashMap}
use mytunnel.Metrics.{Metrics, datagram_tx}
use mytunnel.Proxy.Udp.{Network, Times, new_pool, relay_packet}
use mytunnel.Proxy.Udp
use mytunnel.Server.Stream.{format_target}

pub data Error : Type 0 where
  invalid_utf8 : Error

-- What the handler has done: the datagram that it hands to `send_datagram`, the counters, its result.
pub record Handled : Type 0 where
  pub sent : Option (List ℕ)
  pub metrics : Metrics
  pub result : Result Error (Unit {0})

abbrev pub silent : Metrics → Result Error (Unit {0}) → Handled
silent m r = record { sent = none; metrics = m; result = r }

-- The response behind the header of the request.
abbrev pub response_buf : ℕ → ℕ → Text → List ℕ → List ℕ
response_buf port host_len host response = to_be_bytes port ++ as_u8 host_len ∷ host ++ response

respond : Metrics → ℕ → ℕ → Text → Result Udp.Error (List ℕ) → Handled
respond m port host_len host (err e) = silent m (ok tt)
respond m port host_len host (ok response) = record {
  sent = some (response_buf port host_len host response);
  metrics = datagram_tx m;
  result = ok tt;
}

module _ (net : Network) (dash : DashMap net.Addr (net.Socket × ℕ)) where
  -- The relay of a packet whose host has been checked.
  pub relay : Times → Metrics → ℕ → ℕ → Text → List ℕ → Handled
  unfolding respond
  relay t m port host_len host payload =
      respond m port host_len host
        (relay_packet net dash t (format_target host port) payload (new_pool net dash)).0

  -- `DatagramHandler::handle_datagram`; the indices are in range by the tests of the length.
  unfoldable pub handle_datagram : Times → Metrics → List ℕ → Handled
  unfolding relay
  handle_datagram t m bytes =
      let port = from_be_bytes (get_or bytes 0 0) (get_or bytes 1 0) in
      let host_len = get_or bytes 2 0 in
      let host = take host_len (drop 3 bytes) in
      let payload = drop (3 + host_len) bytes in
      if ltb (length bytes) 4
      then silent m (ok tt)
      else if ltb (length bytes) (3 + host_len)
      then silent m (ok tt)
      else if is_utf8 host
      then relay t m port host_len host payload
      else silent m (err invalid_utf8)
