-- ===== src/Pool/Bits.antt =====
-- The operations on a 64-bit word that the slab's bitset uses, by their binary digits: `w & (1 << i)`,
-- `w & !(1 << i)`, `w | (1 << i)` and `w.trailing_zeros()`.
use Prim.Native.Nat.{bit_and, bit_or}
use mytunnel.Prelude.{
  ℕ, zero, suc, ◌+◌, ◌-◌, ◌*◌, ◌/◌, ◌%◌, ◌^◌, ◌≤◌, ◌<◌, ◌≡◌, ◌≢◌, refl, sym, ap, ◌∙◌, Bool, true,
  false, arith, ◌==◌, if◌then◌else◌, Bool-cases, inl, inr, ltb, le→not_ltb,
}
use native.Mathlib.Nat.{pow-suc}

-- Whether `w & (1 << i)` is not zero.
unfoldable pub test_bit : ℕ → ℕ → Bool
test_bit w zero = w % 2 == 1
test_bit w (suc i) = test_bit (w / 2) i

-- `w & !(1 << i)`
unfoldable pub clear_bit : ℕ → ℕ → ℕ
clear_bit w zero = w / 2 * 2
clear_bit w (suc i) = clear_bit (w / 2) i * 2 + w % 2

-- `w | (1 << i)`
unfoldable pub set_bit : ℕ → ℕ → ℕ
set_bit w zero = w / 2 * 2 + 1
set_bit w (suc i) = set_bit (w / 2) i * 2 + w % 2

zeros_below : ℕ → ℕ → ℕ
zeros_below zero w = 0
zeros_below (suc bits) w = let more = zeros_below bits (w / 2) in if w % 2 == 1 then 0 else suc more

-- `w.trailing_zeros()`, which is 64 for 0
unfoldable pub trailing_zeros : ℕ → ℕ
unfolding zeros_below
trailing_zeros = zeros_below 64

pub test-clear_bit_self : (w i : ℕ) → test_bit (clear_bit w i) i ≡ false
unfolding test_bit clear_bit
test-clear_bit_self w zero = ground arith
test-clear_bit_self w (suc i) =
    let e : (clear_bit (w / 2) i * 2 + w % 2) / 2 ≡ clear_bit (w / 2) i = omega arith in
    rw e (test-clear_bit_self (w / 2) i)

pub test-clear_bit_ne : (w i j : ℕ) → i ≢ j → test_bit (clear_bit w i) j ≡ test_bit w j
unfolding test_bit clear_bit
test-clear_bit_ne w zero zero h = absurd (h refl)
test-clear_bit_ne w zero (suc j) h = ap (λ (v : ℕ). test_bit v j) (omega arith)
test-clear_bit_ne w (suc i) zero h = ap (λ (v : ℕ). v == 1) (omega arith)
test-clear_bit_ne w (suc i) (suc j) h =
    let e : (clear_bit (w / 2) i * 2 + w % 2) / 2 ≡ clear_bit (w / 2) i = omega arith in
    rw e (test-clear_bit_ne (w / 2) i j (λ q. h (ap suc q)))

pub test-set_bit_self : (w i : ℕ) → test_bit (set_bit w i) i ≡ true
unfolding test_bit set_bit
test-set_bit_self w zero = ground arith
test-set_bit_self w (suc i) =
    let e : (set_bit (w / 2) i * 2 + w % 2) / 2 ≡ set_bit (w / 2) i = omega arith in
    rw e (test-set_bit_self (w / 2) i)

pub test-set_bit_ne : (w i j : ℕ) → i ≢ j → test_bit (set_bit w i) j ≡ test_bit w j
unfolding test_bit set_bit
test-set_bit_ne w zero zero h = absurd (h refl)
test-set_bit_ne w zero (suc j) h = ap (λ (v : ℕ). test_bit v j) (omega arith)
test-set_bit_ne w (suc i) zero h = ap (λ (v : ℕ). v == 1) (omega arith)
test-set_bit_ne w (suc i) (suc j) h =
    let e : (set_bit (w / 2) i * 2 + w % 2) / 2 ≡ set_bit (w / 2) i = omega arith in
    rw e (test-set_bit_ne (w / 2) i j (λ q. h (ap suc q)))

pow-pos : (n : ℕ) → 0 < 2 ^ n
pow-pos zero = omega arith
pow-pos (suc n) = omega (arith, pow-suc 2 n, pow-pos n)

-- Clearing or setting a bit among the lowest `bits` keeps a word below 2^bits.
pub clear_bit-le : (w i : ℕ) → clear_bit w i ≤ w
unfolding clear_bit
clear_bit-le w zero = omega arith
clear_bit-le w (suc i) = omega (arith, clear_bit-le (w / 2) i)

pub set_bit-lt : (bits w i : ℕ) → w < 2 ^ bits → i < bits → set_bit w i < 2 ^ bits
unfolding set_bit
set_bit-lt zero w i h k = absurd (omega arith)
set_bit-lt (suc bits) w zero h k = omega (arith, pow-suc 2 bits)
set_bit-lt (suc bits) w (suc i) h k =
    omega (
      arith,
      pow-suc 2 bits,
      set_bit-lt bits (w / 2) i (omega (arith, pow-suc 2 bits)) (omega arith),
    )

-- The lowest bit that is set.
zeros_below-lt : (bits w : ℕ) → w ≢ 0 → w < 2 ^ bits → zeros_below bits w < bits
unfolding zeros_below
zeros_below-lt zero w h k = absurd (omega arith)
zeros_below-lt (suc bits) w h k = elim (Bool-cases (w % 2 == 1)) [
  | inl odd ↦ rw odd (omega arith)
  | inr even ↦
      let half : w / 2 ≢ 0 = λ q. h (ground arith) in
      rw even (omega (arith, zeros_below-lt bits (w / 2) half (omega (arith, pow-suc 2 bits))))
]

test-zeros_below : (bits w : ℕ) → w ≢ 0 → w < 2 ^ bits → test_bit w (zeros_below bits w) ≡ true
unfolding zeros_below test_bit
test-zeros_below zero w h k = absurd (omega arith)
test-zeros_below (suc bits) w h k = elim (Bool-cases (w % 2 == 1)) [
  | inl odd ↦ rw (odd, odd)
  | inr even ↦
      let half : w / 2 ≢ 0 = λ q. h (ground arith) in
      rw even (test-zeros_below bits (w / 2) half (omega (arith, pow-suc 2 bits)))
]

test_below-zeros : (bits w i : ℕ) → i < zeros_below bits w → test_bit w i ≡ false
unfolding zeros_below test_bit
test_below-zeros zero w i h = absurd (omega arith)
test_below-zeros (suc bits) w zero h = ground arith
test_below-zeros (suc bits) w (suc i) h = elim (Bool-cases (w % 2 == 1)) [
  | inl odd ↦ absurd (ground arith)
  | inr even ↦ test_below-zeros bits (w / 2) i (ground arith)
]

pub trailing_zeros-lt : (w : ℕ) → w ≢ 0 → w < 2 ^ 64 → trailing_zeros w < 64
unfolding trailing_zeros
trailing_zeros-lt = zeros_below-lt 64

pub test-trailing_zeros : (w : ℕ) → w ≢ 0 → w < 2 ^ 64 → test_bit w (trailing_zeros w) ≡ true
unfolding trailing_zeros
test-trailing_zeros = test-zeros_below 64

pub test_below-trailing_zeros : (w i : ℕ) → i < trailing_zeros w → test_bit w i ≡ false
unfolding trailing_zeros
test_below-trailing_zeros = test_below-zeros 64

pub test_bit-zero : (i : ℕ) → test_bit 0 i ≡ false
unfolding test_bit
test_bit-zero zero = refl
test_bit-zero (suc i) = test_bit-zero i

-- The word 2^n - 1 has its lowest n bits set.
pub test_bit-ones : (n i : ℕ) → test_bit (2 ^ n - 1) i ≡ ltb i n
unfolding test_bit
test_bit-ones zero i = test_bit-zero i ∙ sym (le→not_ltb i 0 (omega arith))
test_bit-ones (suc n) zero =
    let e : (2 ^ suc n - 1) % 2 ≡ 1 = omega (arith, pow-suc 2 n, pow-pos n) in rw e (ground arith)
test_bit-ones (suc n) (suc i) =
    let e : (2 ^ suc n - 1) / 2 ≡ 2 ^ n - 1 = omega (arith, pow-suc 2 n, pow-pos n) in
    rw e (test_bit-ones n i ∙ ground arith)

-- The digit-wise operations are the masks on concrete words.
masks :
    (clear_bit 0b1011_0110 2 ≡ bit_and 0b1011_0110 (2 ^ 64 - 1 - 2 ^ 2))
    × (set_bit 0b1011_0110 6 ≡ bit_or 0b1011_0110 (2 ^ 6))
    × (trailing_zeros 0b1011_0000 ≡ 4)
    × (trailing_zeros 0 ≡ 64)
unfolding clear_bit set_bit trailing_zeros
masks = (refl, refl, refl, refl)
