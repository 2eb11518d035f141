-- ===== src/Pool/Slab/Consistent/Create.antt =====
-- A new slab is consistent and holds nothing, for every capacity that fits in a `usize`.
use mytunnel.Prelude.{
  ℕ, zero, suc, ◌+◌, ◌-◌, ◌*◌, ◌/◌, ◌%◌, ◌^◌, ◌≤◌, ◌<◌, ◌≡◌, refl, sym, ap, ◌∙◌, true, not, ◌&&◌,
  Option, none, length, arith, ltb, ◌==◌, Bool-cases, inl, inr, ltb→lt, lt→ltb, u64_mod,
  length-replicate,
}
use native.Mathlib.Nat.{pow-suc}
use mytunnel.Pool.Bits.{test_bit, test_bit-ones}
use mytunnel.Pool.Slab.{SlabHandle, new, get, initial_word, words_from}
use mytunnel.Pool.Slab.Bitset.{bit, bit_low, bit_high, AreWords}
use mytunnel.Pool.Slab.Occupied.{is_none, occupied-replicate, get_or-replicate}
use mytunnel.Pool.Slab.Consistent.{IsConsistent}

length-words_from : (f : ℕ → ℕ) (i n : ℕ) → length (words_from f i n) ≡ n
length-words_from f i zero = refl
length-words_from f i (suc n) = ap suc (length-words_from f (suc i) n)

-- Bit `j` of the words from the i-th on is bit `j % 64` of word `i + j / 64`.
bit-words_from :
    (f : ℕ → ℕ) (i n j : ℕ)
    → j < n * 64
    → bit (words_from f i n) j ≡ test_bit (f (i + j / 64)) (j % 64)
bit-words_from f i zero j h = absurd (omega arith)
bit-words_from f i (suc n) j h = elim (Bool-cases (ltb j 64)) [
  | inl low ↦
      let small = ltb→lt j 64 low in
      let e : i + j / 64 ≡ i = omega arith in
      let r : j % 64 ≡ j = omega arith in rw (e, r) (bit_low (f i) (words_from f (suc i) n) j small)
  | inr high ↦
      let e : j ≡ 64 + (j - 64) = ground arith in
      let q : i + j / 64 ≡ suc i + (j - 64) / 64 = omega (arith, e) in
      let r : j % 64 ≡ (j - 64) % 64 = omega (arith, e) in
      rw (q, r)
        (ap (bit (words_from f i (suc n))) e
          ∙ bit_high (f i) (words_from f (suc i) n) (j - 64)
          ∙ bit-words_from f (suc i) n (j - 64) (omega (arith, e)))
]

pow-le : (n m : ℕ) → n ≤ m → 2 ^ n ≤ 2 ^ m
pow-le zero zero h = omega arith
pow-le zero (suc m) h = omega (arith, pow-suc 2 m, pow-le zero m (omega arith))
pow-le (suc n) zero h = absurd (omega arith)
pow-le (suc n) (suc m) h = omega (arith, pow-suc 2 n, pow-suc 2 m, pow-le n m (omega arith))

pow-lt-64 : (n : ℕ) → n < 64 → 2 ^ n - 1 < 2 ^ 64
pow-lt-64 n h = omega (arith, pow-le n 63 (omega arith))

initial_word-lt : (num_words capacity i : ℕ) → initial_word num_words capacity i < u64_mod
initial_word-lt num_words capacity i = ground (arith, pow-lt-64 (capacity % 64) (omega arith))

AreWords-words_from :
    (f : ℕ → ℕ) (i n : ℕ) → ((k : ℕ) → f k < u64_mod) → AreWords (words_from f i n)
AreWords-words_from f i zero h = tt
AreWords-words_from f i (suc n) h = (h i, AreWords-words_from f (suc i) n h)

-- Every number below the capacity is in the initial set.
initial_bit :
    (capacity j : ℕ)
    → j < capacity
    → test_bit (initial_word ((capacity + 63) / 64) capacity (j / 64)) (j % 64) ≡ true
initial_bit capacity j h =
    let last = j / 64 == (capacity + 63) / 64 - 1 && not (capacity % 64 == 0) in
    elim (Bool-cases last) [
      | inl partial ↦
          rw partial (test_bit-ones (capacity % 64) (j % 64) ∙ lt→ltb _ _ (ground arith))
      | inr whole ↦
          rw (whole, lt→ltb (j / 64 * 64) capacity (omega arith))
            (test_bit-ones 64 (j % 64) ∙ lt→ltb _ _ (omega arith))
    ]

-- A new slab whose capacity fits in a word is consistent, and every handle holds nothing.
pub new-IsConsistent :
    (T : Type 0) (capacity : ℕ)
    → capacity < u64_mod
    → IsConsistent (new T capacity) × ((h : SlabHandle) → get h (new T capacity) ≡ none)
unfolding new get
new-IsConsistent T capacity h =
    let n = (capacity + 63) / 64 in
    let none_at = get_or-replicate T (n * 64) in
    let size = length-replicate {A = Option T} (n * 64) none in
    (
      record {
        sizes =
            size ∙ ap (λ (k : ℕ). k * 64) (sym (length-words_from (initial_word n capacity) 0 n));
        room = omega (arith, size);
        small = h;
        are_words = AreWords-words_from (initial_word n capacity) 0 n (initial_word-lt n capacity);
        marked = λ i k.
            let e : 0 + i / 64 ≡ i / 64 = omega arith in
            bit-words_from (initial_word n capacity) 0 n i (omega arith)
            ∙ ap (λ (q : ℕ). test_bit (initial_word n capacity q) (i % 64)) e
            ∙ initial_bit capacity i k
            ∙ ap is_none (sym (none_at i));
        beyond = λ i k. none_at i;
        counted = sym (occupied-replicate T (n * 64));
      },
      λ j. ground (arith, none_at j.index),
    )
