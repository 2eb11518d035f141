-- ===== src/Connection/State.antt =====
-- src/connection/state.rs: the state of one connection. An `Instant` and a `Duration` are numbers of one
-- unit, and the operations that read the clock take its time; `elapsed` is 0 for a later instant.
use mytunnel.Prelude.{
  ℕ, zero, suc, ◌-◌, ◌/◌, ◌%◌, ◌+◌, Bool, true, false, [], ◌∷◌, ◌++◌, Text, text, u32_mod, u64_mod,
  saturating_add, saturating_sub, ltb, if◌then◌else◌,
}

-- `struct ConnectionId(pub u64)`, with `from_raw` and `as_u64`.
abbrev pub ConnectionId : Type 0
ConnectionId = ℕ

abbrev pub hex_digit : ℕ → ℕ
hex_digit d = if ltb d 10 then 48 + d else 87 + d

-- The last hexadecimal digits of a number.
unfoldable pub show_hex : ℕ → ℕ → Text
show_hex zero n = []
show_hex (suc digits) n = show_hex digits (n / 16) ++ hex_digit (n % 16) ∷ []

-- `ConnectionId::fmt`
unfoldable pub show_id : ConnectionId → Text
show_id id = show_hex 16 id

-- `enum ConnectionPhase`
pub data ConnectionPhase : Type 0 where
  connecting active draining closed : ConnectionPhase

-- `format!("{:?}", phase)`
unfoldable pub show_phase : ConnectionPhase → Text
show_phase connecting = text "Connecting"
show_phase active = text "Active"
show_phase draining = text "Draining"
show_phase closed = text "Closed"

-- `struct ConnectionState`
pub record ConnectionState (Addr : Type 0) : Type 0 where
  pub id : ConnectionId
  pub client_addr : Addr
  pub phase : ConnectionPhase
  pub connected_at : ℕ
  pub last_active : ℕ
  pub bytes_rx : ℕ
  pub bytes_tx : ℕ
  pub active_streams : ℕ
  pub active_udp_flows : ℕ

-- `struct ConnectionInfo`; the two times are the durations whose seconds the source keeps.
pub record ConnectionInfo : Type 0 where
  pub id : Text
  pub client_addr : Text
  pub phase : Text
  pub duration : ℕ
  pub idle : ℕ
  pub bytes_rx : ℕ
  pub bytes_tx : ℕ
  pub active_streams : ℕ
  pub active_udp_flows : ℕ

-- `ConnectionState::new`
unfoldable pub new : {Addr : Type 0} → ConnectionId → Addr → ℕ → ConnectionState Addr
new id client_addr now = record {
  id = id;
  client_addr = client_addr;
  phase = connecting;
  connected_at = now;
  last_active = now;
  bytes_rx = 0;
  bytes_tx = 0;
  active_streams = 0;
  active_udp_flows = 0;
}

-- `phase == ConnectionPhase::Active`
abbrev is_active_phase : ConnectionPhase → Bool
is_active_phase connecting = false
is_active_phase active = true
is_active_phase draining = false
is_active_phase closed = false

module _ {Addr : Type 0} where
  -- `ConnectionState::touch`
  unfoldable pub touch : ℕ → ConnectionState Addr → ConnectionState Addr
  touch now s = record s { last_active = now }

  -- `ConnectionState::set_active`
  unfoldable pub set_active : ℕ → ConnectionState Addr → ConnectionState Addr
  set_active now s = touch now (record s { phase = active })

  -- `ConnectionState::set_draining`
  unfoldable pub set_draining : ConnectionState Addr → ConnectionState Addr
  set_draining s = record s { phase = draining }

  -- `ConnectionState::set_closed`
  unfoldable pub set_closed : ConnectionState Addr → ConnectionState Addr
  set_closed s = record s { phase = closed }

  -- `ConnectionState::record_rx`
  unfoldable pub record_rx : ℕ → ℕ → ConnectionState Addr → ConnectionState Addr
  record_rx now bytes s =
      touch now (record s { bytes_rx = saturating_add u64_mod s.bytes_rx bytes })

  -- `ConnectionState::record_tx`
  unfoldable pub record_tx : ℕ → ℕ → ConnectionState Addr → ConnectionState Addr
  record_tx now bytes s =
      touch now (record s { bytes_tx = saturating_add u64_mod s.bytes_tx bytes })

  -- `ConnectionState::duration`
  unfoldable pub duration : ℕ → ConnectionState Addr → ℕ
  duration now s = now - s.connected_at

  -- `ConnectionState::idle_duration`
  unfoldable pub idle_duration : ℕ → ConnectionState Addr → ℕ
  idle_duration now s = now - s.last_active

  -- `ConnectionState::is_active`
  unfoldable pub is_active : ConnectionState Addr → Bool
  is_active s = is_active_phase s.phase

  -- `ConnectionState::stream_opened`
  unfoldable pub stream_opened : ConnectionState Addr → ConnectionState Addr
  stream_opened s = record s { active_streams = saturating_add u32_mod s.active_streams 1 }

  -- `ConnectionState::stream_closed`
  unfoldable pub stream_closed : ConnectionState Addr → ConnectionState Addr
  stream_closed s = record s { active_streams = saturating_sub s.active_streams 1 }

  -- `ConnectionState::udp_flow_opened`
  unfoldable pub udp_flow_opened : ConnectionState Addr → ConnectionState Addr
  udp_flow_opened s = record s { active_udp_flows = saturating_add u32_mod s.active_udp_flows 1 }

  -- `ConnectionState::udp_flow_closed`
  unfoldable pub udp_flow_closed : ConnectionState Addr → ConnectionState Addr
  udp_flow_closed s = record s { active_udp_flows = saturating_sub s.active_udp_flows 1 }

  -- `ConnectionState::to_info`, with the address's `to_string`.
  unfoldable pub to_info : (Addr → Text) → ℕ → ConnectionState Addr → ConnectionInfo
  to_info show_addr now s = record {
    id = show_id s.id;
    client_addr = show_addr s.client_addr;
    phase = show_phase s.phase;
    duration = duration now s;
    idle = idle_duration now s;
    bytes_rx = s.bytes_rx;
    bytes_tx = s.bytes_tx;
    active_streams = s.active_streams;
    active_udp_flows = s.active_udp_flows;
  }
