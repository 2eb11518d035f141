-- ===== src/Pool/Slab/Bitset.antt =====
-- The bitset as a set of numbers, and the search for the lowest of them.
use mytunnel.Prelude.{
  ℕ, suc, ◌+◌, ◌-◌, ◌*◌, ◌<◌, ◌≡◌, ◌≢◌, refl, sym, ap, ◌∙◌, Bool, true, false, Option, none, some,
  List, [], ◌∷◌, All, length, arith, ltb, leb, ◌==◌, if◌then◌else◌, Bool-cases, inl, inr, ltb→lt,
  lt→ltb, le→not_ltb, u64_mod,
}
use mytunnel.Pool.Bits.{
  test_bit, clear_bit, trailing_zeros, test-clear_bit_self, test-clear_bit_ne, clear_bit-le,
  trailing_zeros-lt, test-trailing_zeros, test_below-trailing_zeros, test_bit-zero,
}
use mytunnel.Pool.Slab.{claim, after_word}

-- Whether slot `j`, counted from the first word, is marked as free.
pub bit : List ℕ → ℕ → Bool
bit [] j = false
bit (w ∷ words) j = if ltb j 64 then test_bit w j else bit words (j - 64)

abbrev pub AreWords : List ℕ → Type 0
AreWords = All (λ w. w < u64_mod)

bit_nil : (j : ℕ) → bit [] j ≡ false
unfolding bit
bit_nil j = refl

pub bit_low : (w : ℕ) (words : List ℕ) (j : ℕ) → j < 64 → bit (w ∷ words) j ≡ test_bit w j
unfolding bit
bit_low w words j h = rw (lt→ltb j 64 h)

pub bit_high : (w : ℕ) (words : List ℕ) (j : ℕ) → bit (w ∷ words) (64 + j) ≡ bit words j
unfolding bit
bit_high w words j =
    let e : 64 + j - 64 ≡ j = omega arith in rw (le→not_ltb (64 + j) 64 (omega arith), e)

-- What a successful search has found, relative to its first word: the lowest number of the set, which
-- lies below the capacity; and that its bit alone has been cleared.
pub record Claimed (capacity word_idx : ℕ) (words : List ℕ) (idx : ℕ) (words' : List ℕ)
    : Type 0 where
  pub offset : ℕ
  pub place : idx ≡ word_idx * 64 + offset
  pub in_range : idx < capacity
  pub was_free : bit words offset ≡ true
  pub now_taken : bit words' offset ≡ false
  pub others : (j : ℕ) → j ≢ offset → bit words' j ≡ bit words j
  pub lowest : (j : ℕ) → j < offset → bit words j ≡ false
  pub same_length : length words' ≡ length words
  pub within : offset < length words * 64
  pub are_words : AreWords words'

abbrev pub Claims : ℕ → ℕ → List ℕ → Option (ℕ × List ℕ) → Type 0
Claims capacity word_idx words none = (j : ℕ) → word_idx * 64 + j < capacity → bit words j ≡ false
Claims capacity word_idx words (some (idx, words')) = Claimed capacity word_idx words idx words'

-- A word with no number below the capacity is passed over.
module _ (capacity word_idx w : ℕ) (words : List ℕ) (range : w < u64_mod)
    (passed : (j : ℕ) → j < 64 → word_idx * 64 + j < capacity → test_bit w j ≡ false) where
  passed_bit : (j : ℕ) → word_idx * 64 + j < capacity → (j < 64) → bit (w ∷ words) j ≡ false
  passed_bit j h low = bit_low w words j low ∙ passed j low h

  after_word-none :
      Claims capacity (suc word_idx) words none → Claims capacity word_idx (w ∷ words) none
  after_word-none c j h = elim (Bool-cases (ltb j 64)) [
    | inl low ↦ passed_bit j h (ltb→lt j 64 low)
    | inr high ↦
        let e : j ≡ 64 + (j - 64) = ground arith in
        rw e (bit_high w words (j - 64) ∙ c (j - 64) (ground arith))
  ]

  after_word-some :
      (idx : ℕ) (words' : List ℕ)
      → Claimed capacity (suc word_idx) words idx words'
      → Claimed capacity word_idx (w ∷ words) idx (w ∷ words')
  after_word-some idx words' c = record {
    offset = 64 + c.offset;
    place = omega (arith, c.place);
    in_range = c.in_range;
    was_free = bit_high w words c.offset ∙ c.was_free;
    now_taken = bit_high w words' c.offset ∙ c.now_taken;
    others = λ j h. elim (Bool-cases (ltb j 64)) [
      | inl low ↦ bit_low w words' j (ltb→lt j 64 low) ∙ sym (bit_low w words j (ltb→lt j 64 low))
      | inr high ↦
          let e : j ≡ 64 + (j - 64) = ground arith in
          rw e (
            bit_high w words' (j - 64)
            ∙ c.others (j - 64) (λ q. h (omega (arith, q, e)))
            ∙ sym (bit_high w words (j - 64)))
    ];
    lowest = λ j h. elim (Bool-cases (ltb j 64)) [
      | inl low ↦ passed_bit j (omega (arith, c.place, c.in_range)) (ltb→lt j 64 low)
      | inr high ↦
          let e : j ≡ 64 + (j - 64) = ground arith in
          rw e (bit_high w words (j - 64) ∙ c.lowest (j - 64) (omega arith))
    ];
    same_length = ap suc c.same_length;
    within = omega (arith, c.within);
    are_words = (range, c.are_words);
  }

  after_word-Claims :
      (found : Option (ℕ × List ℕ))
      → Claims capacity (suc word_idx) words found
      → Claims capacity word_idx (w ∷ words) (after_word w found)
  after_word-Claims none c = after_word-none c
  after_word-Claims (some (idx, words')) c = after_word-some idx words' c

-- A word whose lowest number lies below the capacity.
Claimed-here :
    (capacity word_idx w : ℕ) (words : List ℕ)
    → AreWords (w ∷ words)
    → w ≢ 0
    → word_idx * 64 + trailing_zeros w < capacity
    → Claimed capacity word_idx
        (w ∷ words)
        (word_idx * 64 + trailing_zeros w)
        (clear_bit w (trailing_zeros w) ∷ words)
Claimed-here capacity word_idx w words range nonzero fits =
    let i = trailing_zeros w in
    let low : i < 64 = trailing_zeros-lt w nonzero range.0 in
    let v = clear_bit w i in
    record {
      offset = i;
      place = refl;
      in_range = fits;
      was_free = bit_low w words i low ∙ test-trailing_zeros w nonzero range.0;
      now_taken = bit_low v words i low ∙ test-clear_bit_self w i;
      others = λ j h. elim (Bool-cases (ltb j 64)) [
        | inl below ↦
            let b = ltb→lt j 64 below in
            bit_low v words j b
            ∙ test-clear_bit_ne w i j (λ q. h (sym q))
            ∙ sym (bit_low w words j b)
        | inr high ↦
            let e : j ≡ 64 + (j - 64) = ground arith in
            rw e (bit_high v words (j - 64) ∙ sym (bit_high w words (j - 64)))
      ];
      lowest = λ j h. bit_low w words j (omega arith) ∙ test_below-trailing_zeros w j h;
      same_length = refl;
      within = omega arith;
      are_words = (omega (arith, range.0, clear_bit-le w i), range.1);
    }

-- The search finds the lowest free slot below the capacity and clears its bit alone, or there is none.
pub claim-Claims :
    (capacity word_idx : ℕ) (words : List ℕ)
    → AreWords words
    → Claims capacity word_idx words (claim capacity word_idx words)
unfolding claim
claim-Claims capacity word_idx [] range = λ j h. bit_nil j
claim-Claims capacity word_idx (w ∷ words) range =
    let later = claim-Claims capacity (suc word_idx) words range.1 in
    elim (Bool-cases (w == 0)) [
      | inl zeros ↦
          let e : w ≡ 0 = ground arith in
          rw zeros (
            after_word-Claims capacity word_idx w words range.0
              (λ j low h. ap (λ v. test_bit v j) e ∙ test_bit-zero j) _ later)
      | inr nonzero ↦ elim (Bool-cases (leb capacity (word_idx * 64 + trailing_zeros w))) [
        | inl past ↦
            rw (nonzero, past)
              (after_word-Claims capacity word_idx w words range.0
                (λ j low h. test_below-trailing_zeros w j (ground arith)) _ later)
        | inr fits ↦
            rw (nonzero, fits)
              (Claimed-here capacity word_idx w words range (λ q. ground arith) (ground arith))
      ]
    ]
