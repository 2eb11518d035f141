-- ===== src/Prelude/Words.antt =====
-- Machine words as native numbers: wrap-around and saturating arithmetic, big-endian bytes.
use Prim.Native.Nat.{ℕ, ◌+◌, ◌-◌, ◌*◌, ◌/◌, ◌%◌, ◌^◌, ◌<◌, min}
use mathlib.Core.Path.{◌≡◌}
use mathlib.Core.List.{List, [], ◌∷◌}
use native.Mathlib.Omega.{arith}
use mytunnel.Prelude.Lists.{All}

abbrev pub u64_mod : ℕ
u64_mod = 2 ^ 64

abbrev pub u32_mod : ℕ
u32_mod = 2 ^ 32

abbrev pub IsByte : ℕ → Type 0
IsByte b = b < 256

abbrev pub IsU16 : ℕ → Type 0
IsU16 n = n < 65536

abbrev pub IsU64 : ℕ → Type 0
IsU64 n = n < u64_mod

-- `AtomicU64::fetch_add` and `AtomicUsize::fetch_sub` wrap around (usize is 64 bits wide).
unfoldable pub wrapping_add : ℕ → ℕ → ℕ
wrapping_add a b = (a + b) % u64_mod

unfoldable pub wrapping_sub : ℕ → ℕ → ℕ
wrapping_sub a b = (a + (u64_mod - b % u64_mod)) % u64_mod

-- `saturating_add` and `saturating_sub` of the unsigned type with `modulus` values.
unfoldable pub saturating_add : ℕ → ℕ → ℕ → ℕ
saturating_add modulus a b = min (a + b) (modulus - 1)

unfoldable pub saturating_sub : ℕ → ℕ → ℕ
saturating_sub a b = a - b

-- `u16::to_be_bytes` and `u16::from_be_bytes`.
abbrev pub to_be_bytes : ℕ → List ℕ
to_be_bytes n = n / 256 ∷ n % 256 ∷ []

abbrev pub from_be_bytes : ℕ → ℕ → ℕ
from_be_bytes hi lo = hi * 256 + lo

-- `n as u8`
abbrev pub as_u8 : ℕ → ℕ
as_u8 n = n % 256

pub from_be_bytes-div-mod : (n : ℕ) → from_be_bytes (n / 256) (n % 256) ≡ n
from_be_bytes-div-mod n = omega arith

pub from_be_bytes-IsU16 : (hi lo : ℕ) → IsByte hi → IsByte lo → IsU16 (from_be_bytes hi lo)
from_be_bytes-IsU16 hi lo h l = omega arith

pub to_be_bytes-IsByte : (n : ℕ) → IsU16 n → All IsByte (to_be_bytes n)
to_be_bytes-IsByte n h = omega arith
