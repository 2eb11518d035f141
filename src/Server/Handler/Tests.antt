-- ===== src/Server/Handler/Tests.antt =====
-- A connection's handler on a new manager.
use mytunnel.Prelude.{ℕ, ◌≡◌, refl, true, some, [], ◌∷◌, arith}
use mytunnel.Metrics
use mytunnel.Metrics.{Metrics}
use mytunnel.Pool.Slab
use mytunnel.Pool.Bits
use mytunnel.Connection.{ConnectionManager, new, register, connection_count}
use mytunnel.Connection.Tests.{handles, config}
use mytunnel.Connection.Tracks.{new-Tracks}
use mytunnel.Connection.History.{registers}
use mytunnel.Connection.History.Accounted.{IsAccounted}
use mytunnel.Server.Handler.{
  stream_accepted, datagram_received, datagram_failed, stream_done, called, accept_failed, handle,
}
use mytunnel.Server.Handler.Registered.{Handles, id_of, handle-Handles}
use mytunnel.Server.Handler.Idle.{Forgets, handle-Forgets}

abbrev fresh : ConnectionManager ℕ handles × Metrics
fresh = (new ℕ handles config, Metrics.new)

fresh-IsAccounted : IsAccounted fresh
unfolding new connection_count Slab.new Slab.len
fresh-IsAccounted = record {
  tracks = (new-Tracks ℕ handles config (omega arith)).0;
  gauge = refl;
  fits = omega arith;
}

handle-Handles_example : Handles (id_of true 7 10 fresh) (
    handle true 7 10 11
      (stream_accepted ∷ called 12 (registers 8) ∷ stream_done ∷ accept_failed ∷ [])
      fresh)
unfolding new
handle-Handles_example =
    handle-Handles true 7 10 11
      (stream_accepted ∷ called 12 (registers 8) ∷ stream_done ∷ accept_failed ∷ []) fresh
      (omega arith) fresh-IsAccounted

registered : (register 7 10 fresh).0 ≡ some 1
unfolding new register Slab.new Slab.insert Slab.claim Bits.trailing_zeros
registered = refl

handle-Forgets_example : Forgets 1 42 (
    handle true 7 10 11
      (stream_accepted ∷ datagram_received ∷ datagram_failed ∷ stream_done ∷ [])
      fresh)
unfolding new
handle-Forgets_example =
    handle-Forgets 7 10 11 42
      (stream_accepted ∷ datagram_received ∷ datagram_failed ∷ stream_done ∷ []) 1
      (new ℕ handles config) Metrics.new (new-Tracks ℕ handles config (omega arith)).0 (omega arith)
      registered (tt, (tt, (tt, (tt, tt)))) (omega arith)
