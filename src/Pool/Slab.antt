-- ===== src/Pool/Slab.antt =====
-- src/pool/slab.rs: connection slots with a bitset of the free ones. A lock or an atomic operation is
-- one step, and each method runs without another between its steps, so the compare-and-swap in `insert`
-- succeeds at once. Indices and counts are `usize`, 64 bits wide.
pub mod Bitset
pub mod Occupied
pub mod Capacity
pub mod Consistent
use mytunnel.Prelude.{
  ℕ, zero, suc, ◌+◌, ◌-◌, ◌*◌, ◌/◌, ◌%◌, ◌^◌, Bool, true, false, not, ◌&&◌, Option, none, some,
  List, [], ◌∷◌, get_or, set, replicate, ltb, leb, ◌==◌, if◌then◌else◌, wrapping_add, wrapping_sub,
}
use mytunnel.Pool.Bits.{trailing_zeros, clear_bit, set_bit}

-- `struct SlabHandle`, with `index`.
pub record SlabHandle : Type 0 where
  pub index : ℕ

-- `struct ConnectionSlab`
pub record ConnectionSlab (T : Type 0) : Type 0 where
  pub slots : List (Option T)
  pub free_bitset : List ℕ
  pub allocated : ℕ
  pub capacity : ℕ

-- The initial word `i` of the bitset.
abbrev initial_word : ℕ → ℕ → ℕ → ℕ
initial_word num_words capacity i =
    if i == num_words - 1 && not (capacity % 64 == 0)
    then 2 ^ (capacity % 64) - 1
    else if ltb (i * 64) capacity
    then 2 ^ 64 - 1
    else 0

-- `(i..n).map(f)`, with the number of words that are left.
abbrev words_from : (ℕ → ℕ) → ℕ → ℕ → List ℕ
words_from f i zero = []
words_from f i (suc left) = f i ∷ words_from f (suc i) left

-- `ConnectionSlab::new`
unfoldable pub new : (T : Type 0) → ℕ → ConnectionSlab T
new T capacity =
    let num_words = (capacity + 63) / 64 in
    record {
      slots = replicate (num_words * 64) none;
      free_bitset = words_from (initial_word num_words capacity) 0 num_words;
      allocated = 0;
      capacity = capacity;
    }

abbrev after_word : ℕ → Option (ℕ × List ℕ) → Option (ℕ × List ℕ)
after_word w none = none
after_word w (some (slot_idx, words)) = some (slot_idx, w ∷ words)

-- The search of `insert`: the slot that is claimed, and the words with its bit cleared. A word that is
-- 0, and one whose lowest bit lies past the capacity, is passed over.
unfoldable pub claim : ℕ → ℕ → List ℕ → Option (ℕ × List ℕ)
claim capacity word_idx [] = none
claim capacity word_idx (current ∷ words) =
    let bit_idx = trailing_zeros current in
    let slot_idx = word_idx * 64 + bit_idx in
    let later = after_word current (claim capacity (suc word_idx) words) in
    if current == 0
    then later
    else if leb capacity slot_idx
    then later
    else some (slot_idx, clear_bit current bit_idx ∷ words)

-- `ConnectionSlab::insert`
unfoldable pub insert : {T : Type 0} → T → ConnectionSlab T → Option SlabHandle × ConnectionSlab T
unfolding wrapping_add
insert value s = elim (claim s.capacity 0 s.free_bitset) [
  | none ↦ (none, s)
  | some (slot_idx, words) ↦ (
    some (record { index = slot_idx }),
    record s {
      slots = set s.slots slot_idx (some value);
      free_bitset = words;
      allocated = wrapping_add s.allocated 1;
    },
  )
]

-- `ConnectionSlab::remove`
unfoldable pub remove : {T : Type 0} → SlabHandle → ConnectionSlab T → Option T × ConnectionSlab T
unfolding wrapping_sub
remove handle s =
    let idx = handle.index in
    let word = set_bit (get_or s.free_bitset (idx / 64) 0) (idx % 64) in
    elim (leb s.capacity idx) [
      | true ↦ (none, s)
      | false ↦ elim (get_or s.slots idx none) [
        | none ↦ (none, s)
        | some value ↦ (
          some value,
          record s {
            slots = set s.slots idx none;
            free_bitset = set s.free_bitset (idx / 64) word;
            allocated = wrapping_sub s.allocated 1;
          },
        )
      ]
    ]

-- `ConnectionSlab::get`, and `get_mut` for what it shows.
unfoldable pub get : {T : Type 0} → SlabHandle → ConnectionSlab T → Option T
get handle s = if leb s.capacity handle.index then none else get_or s.slots handle.index none

-- A write through the guard that `ConnectionSlab::get_mut` returns.
unfoldable pub modify : {T : Type 0} → SlabHandle → (T → T) → ConnectionSlab T → ConnectionSlab T
unfolding get
modify handle f s = elim (get handle s) [
  | none ↦ s
  | some value ↦ record s { slots = set s.slots handle.index (some (f value)) }
]

-- `ConnectionSlab::len`
unfoldable pub len : {T : Type 0} → ConnectionSlab T → ℕ
len s = s.allocated

-- `ConnectionSlab::is_empty`
unfoldable pub is_empty : {T : Type 0} → ConnectionSlab T → Bool
unfolding len
is_empty s = len s == 0

-- `ConnectionSlab::is_full`
unfoldable pub is_full : {T : Type 0} → ConnectionSlab T → Bool
unfolding len
is_full s = leb s.capacity (len s)
