-- ===== src/Pool/Slab/Occupied.antt =====
-- Counting the occupied slots of a slab, and marking a slot as free again.
use mytunnel.Prelude.{
  ℕ, zero, suc, ◌+◌, ◌-◌, ◌*◌, ◌≤◌, ◌<◌, ◌≡◌, ◌≢◌, refl, sym, ap, ◌∙◌, Bool, true, false, Option,
  none, some, List, [], ◌∷◌, length, get_or, set, replicate, arith, Bool-cases, inl, inr, ltb,
  ltb→lt,
}
use mytunnel.Pool.Bits.{set_bit, test-set_bit_self, test-set_bit_ne, set_bit-lt}
use mytunnel.Pool.Slab.Bitset.{bit, bit_low, bit_high, AreWords}

module _ {T : Type 0} where
  abbrev pub is_none : Option T → Bool
  is_none none = true
  is_none (some v) = false

  pub occupied : List (Option T) → ℕ
  occupied [] = 0
  occupied (none ∷ slots) = occupied slots
  occupied (some v ∷ slots) = suc (occupied slots)

  pub get_or-set_self :
      (slots : List (Option T)) (i : ℕ) (v : Option T)
      → i < length slots
      → get_or (set slots i v) i none ≡ v
  get_or-set_self [] i v h = absurd (omega arith)
  get_or-set_self (x ∷ slots) zero v h = refl
  get_or-set_self (x ∷ slots) (suc i) v h = get_or-set_self slots i v (omega arith)

  pub get_or-set_ne :
      (slots : List (Option T)) (i j : ℕ) (v : Option T)
      → j ≢ i
      → get_or (set slots i v) j none ≡ get_or slots j none
  get_or-set_ne [] i j v h = refl
  get_or-set_ne (x ∷ slots) zero zero v h = absurd (h refl)
  get_or-set_ne (x ∷ slots) zero (suc j) v h = refl
  get_or-set_ne (x ∷ slots) (suc i) zero v h = refl
  get_or-set_ne (x ∷ slots) (suc i) (suc j) v h = get_or-set_ne slots i j v (λ q. h (ap suc q))

  pub occupied-set-some :
      (slots : List (Option T)) (i : ℕ) (v : T)
      → i < length slots
      → get_or slots i none ≡ none
      → occupied (set slots i (some v)) ≡ suc (occupied slots)
  unfolding occupied
  occupied-set-some [] i v h e = absurd (omega arith)
  occupied-set-some (none ∷ slots) zero v h e = refl
  occupied-set-some (some w ∷ slots) zero v h e = cc
  occupied-set-some (none ∷ slots) (suc i) v h e = occupied-set-some slots i v (omega arith) e
  occupied-set-some (some w ∷ slots) (suc i) v h e =
      ap suc (occupied-set-some slots i v (omega arith) e)

  pub occupied-set-none :
      (slots : List (Option T)) (i : ℕ) (v : T)
      → get_or slots i none ≡ some v
      → suc (occupied (set slots i none)) ≡ occupied slots
  unfolding occupied
  occupied-set-none [] i v e = cc
  occupied-set-none (none ∷ slots) zero v e = cc
  occupied-set-none (some w ∷ slots) zero v e = refl
  occupied-set-none (none ∷ slots) (suc i) v e = occupied-set-none slots i v e
  occupied-set-none (some w ∷ slots) (suc i) v e = ap suc (occupied-set-none slots i v e)

  pub occupied-set_again :
      (slots : List (Option T)) (i : ℕ) (v w : T)
      → get_or slots i none ≡ some v
      → occupied (set slots i (some w)) ≡ occupied slots
  unfolding occupied
  occupied-set_again [] i v w e = cc
  occupied-set_again (none ∷ slots) zero v w e = cc
  occupied-set_again (some x ∷ slots) zero v w e = refl
  occupied-set_again (none ∷ slots) (suc i) v w e = occupied-set_again slots i v w e
  occupied-set_again (some x ∷ slots) (suc i) v w e = ap suc (occupied-set_again slots i v w e)

  -- With no value at or past the capacity, at most that many slots are occupied ...
  pub occupied-le :
      (slots : List (Option T)) (capacity : ℕ)
      → ((i : ℕ) → capacity ≤ i → get_or slots i none ≡ none)
      → occupied slots ≤ capacity
  unfolding occupied
  occupied-le [] capacity h = omega arith
  occupied-le (none ∷ slots) zero h = occupied-le slots zero (λ i k. h (suc i) (omega arith))
  occupied-le (some v ∷ slots) zero h = cc (h 0 (omega arith))
  occupied-le (none ∷ slots) (suc c) h =
      omega (arith, occupied-le slots c (λ i k. h (suc i) (omega arith)))
  occupied-le (some v ∷ slots) (suc c) h =
      omega (arith, occupied-le slots c (λ i k. h (suc i) (omega arith)))

  -- ... fewer if one below it is free ...
  pub occupied-lt :
      (slots : List (Option T)) (capacity j : ℕ)
      → ((i : ℕ) → capacity ≤ i → get_or slots i none ≡ none)
      → j < capacity
      → get_or slots j none ≡ none
      → occupied slots < capacity
  unfolding occupied
  occupied-lt [] capacity j h k e = omega arith
  occupied-lt (x ∷ slots) zero j h k e = absurd (omega arith)
  occupied-lt (none ∷ slots) (suc c) zero h k e =
      omega (arith, occupied-le slots c (λ i k. h (suc i) (omega arith)))
  occupied-lt (some v ∷ slots) (suc c) zero h k e = cc
  occupied-lt (none ∷ slots) (suc c) (suc j) h k e =
      omega (arith, occupied-lt slots c j (λ i k. h (suc i) (omega arith)) (omega arith) e)
  occupied-lt (some v ∷ slots) (suc c) (suc j) h k e =
      omega (arith, occupied-lt slots c j (λ i k. h (suc i) (omega arith)) (omega arith) e)

  -- ... and all of them if none below it is.
  pub occupied-full :
      (slots : List (Option T)) (capacity : ℕ)
      → ((i : ℕ) → i < capacity → is_none (get_or slots i none) ≡ false)
      → capacity ≤ occupied slots
  unfolding occupied
  occupied-full slots zero h = omega arith
  occupied-full [] (suc c) h = cc (h 0 (omega arith))
  occupied-full (none ∷ slots) (suc c) h = cc (h 0 (omega arith))
  occupied-full (some v ∷ slots) (suc c) h =
      omega (arith, occupied-full slots c (λ i k. h (suc i) (omega arith)))

module _ (T : Type 0) where
  pub occupied-none :
      (slots : List (Option T)) → ((i : ℕ) → get_or slots i none ≡ none) → occupied slots ≡ 0
  unfolding occupied
  occupied-none [] free = refl
  occupied-none (none ∷ slots) free = occupied-none slots (λ i. free (suc i))
  occupied-none (some v ∷ slots) free = let e = free 0 in absurd cc

  pub occupied-replicate : (n : ℕ) → occupied (replicate {A = Option T} n none) ≡ 0
  unfolding occupied
  occupied-replicate zero = refl
  occupied-replicate (suc n) = occupied-replicate n

  pub get_or-replicate : (n i : ℕ) → get_or (replicate {A = Option T} n none) i none ≡ none
  get_or-replicate zero i = refl
  get_or-replicate (suc n) zero = refl
  get_or-replicate (suc n) (suc i) = get_or-replicate n i

-- The bit that `remove` sets, `r` within word `k`.
abbrev pub mark : List ℕ → ℕ → ℕ → List ℕ
mark words k r = set words k (set_bit (get_or words k 0) r)

pub bit-mark_self :
    (words : List ℕ) (k r : ℕ)
    → k < length words
    → r < 64
    → bit (mark words k r) (k * 64 + r) ≡ true
bit-mark_self [] k r h l = absurd (omega arith)
bit-mark_self (w ∷ words) zero r h l =
    let e : 0 * 64 + r ≡ r = omega arith in
    rw e (bit_low (set_bit w r) words r l ∙ test-set_bit_self w r)
bit-mark_self (w ∷ words) (suc k) r h l =
    let e : suc k * 64 + r ≡ 64 + (k * 64 + r) = omega arith in
    rw e (bit_high w (mark words k r) (k * 64 + r) ∙ bit-mark_self words k r (omega arith) l)

pub bit-mark_ne :
    (words : List ℕ) (k r j : ℕ) → r < 64 → j ≢ k * 64 + r → bit (mark words k r) j ≡ bit words j
bit-mark_ne [] k r j l h = refl
bit-mark_ne (w ∷ words) zero r j l h = elim (Bool-cases (ltb j 64)) [
  | inl low ↦
      bit_low (set_bit w r) words j (ltb→lt j 64 low)
      ∙ test-set_bit_ne w r j (λ q. h (omega (arith, q)))
      ∙ sym (bit_low w words j (ltb→lt j 64 low))
  | inr high ↦
      let e : j ≡ 64 + (j - 64) = ground arith in
      rw e (bit_high (set_bit w r) words (j - 64) ∙ sym (bit_high w words (j - 64)))
]
bit-mark_ne (w ∷ words) (suc k) r j l h = elim (Bool-cases (ltb j 64)) [
  | inl low ↦
      bit_low w (mark words k r) j (ltb→lt j 64 low) ∙ sym (bit_low w words j (ltb→lt j 64 low))
  | inr high ↦
      let e : j ≡ 64 + (j - 64) = ground arith in
      rw e (
        bit_high w (mark words k r) (j - 64)
        ∙ bit-mark_ne words k r (j - 64) l (λ q. h (omega (arith, q, e)))
        ∙ sym (bit_high w words (j - 64)))
]

pub mark-AreWords : (words : List ℕ) (k r : ℕ) → r < 64 → AreWords words → AreWords (mark words k r)
mark-AreWords [] k r l range = tt
mark-AreWords (w ∷ words) zero r l range = (set_bit-lt 64 w r range.0 l, range.1)
mark-AreWords (w ∷ words) (suc k) r l range = (range.0, mark-AreWords words k r l range.1)
