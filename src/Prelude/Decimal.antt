-- ===== src/Prelude/Decimal.antt =====
-- `u16`, `u8` and `usize` in decimal: `to_string`, and `str::parse::<u16>` with its sign, digits and bound.
use Prim.Native.Nat.{ℕ, zero, suc, ◌+◌, ◌-◌, ◌*◌, ◌/◌, ◌%◌, ◌^◌, ◌≤◌, ◌<◌}
use mathlib.Core.Path.{◌≡◌, ◌∙◌, ap, sym}
use mathlib.Core.Bool.{Bool, true, false, ◌&&◌}
use mathlib.Core.Option.{Option, none, some}
use mathlib.Core.List.{[], ◌∷◌, ◌++◌, append_assoc, append-nil}
use native.Mathlib.Nat.{pow-suc}
use mathlib.Core.Logic.{◌≢◌, inl, inr}
use native.Mathlib.Omega.{arith}
use mytunnel.Prelude.Tests.{ltb, leb, ◌==◌, if◌then◌else◌, Bool-cases, ltb→lt}
use mytunnel.Prelude.Lists.{All, All-append, length, length-append}
use mytunnel.Prelude.Strings.{Text, IsAscii}

-- The digits of `n` by repeated division, with fuel.
unfoldable pub digits_of : ℕ → ℕ → Text
digits_of zero n = []
digits_of (suc fuel) n =
    let rest = digits_of fuel (n / 10) in
    if ltb n 10 then (48 + n) ∷ [] else rest ++ (48 + n % 10) ∷ []

-- `n.to_string()` for `n : u16`: five digits are enough.
unfoldable pub to_decimal : ℕ → Text
unfolding digits_of
to_decimal = digits_of 5

-- `n.to_string()` for `n : usize`: twenty digits are enough.
unfoldable pub show_usize : ℕ → Text
unfolding digits_of
show_usize = digits_of 20

-- The number that some digits behind others stand for.
pub value : ℕ → Text → ℕ
value acc [] = acc
value acc (c ∷ s) = value (acc * 10 + (c - 48)) s

abbrev pub is_digit : ℕ → Bool
is_digit c = leb 48 c && leb c 57

unfoldable pub parse_digits : ℕ → Text → Option ℕ
parse_digits acc [] = some acc
parse_digits acc (c ∷ s) =
    let next = acc * 10 + (c - 48) in
    let rest = parse_digits next s in if is_digit c && ltb next 65536 then rest else none

-- `s.parse::<u16>()`: a leading `+` is allowed, an empty text or a lone sign is not.
unfoldable pub parse_u16 : Text → Option ℕ
unfolding parse_digits
parse_u16 [] = none
parse_u16 (c ∷ []) = if is_digit c then some (c - 48) else none
parse_u16 (c ∷ d ∷ s) = if c == 43 then parse_digits 0 (d ∷ s) else parse_digits 0 (c ∷ d ∷ s)

parse_digits_step :
    (acc d : ℕ) (rest : Text)
    → d < 10
    → acc * 10 + d < 65536
    → parse_digits acc ((48 + d) ∷ rest) ≡ parse_digits (acc * 10 + d) rest
unfolding parse_digits
parse_digits_step acc d rest h k = let e : 48 + d - 48 ≡ d = omega arith in rw e (ground arith)

parse_digits-digits_of :
    (fuel n : ℕ) (rest : Text)
    → n < 10 ^ fuel
    → n < 65536
    → parse_digits 0 (digits_of fuel n ++ rest) ≡ parse_digits n rest
unfolding digits_of
parse_digits-digits_of zero n rest h k = ap (λ (m : ℕ). parse_digits m rest) (omega arith)
parse_digits-digits_of (suc fuel) n rest h k = elim (Bool-cases (ltb n 10)) [
  | inl small ↦ rw small (
      parse_digits_step 0 n rest (ltb→lt n 10 small) (omega arith)
      ∙ ap (λ (m : ℕ). parse_digits m rest) (omega arith))
  | inr big ↦
      rw (big, append_assoc (digits_of fuel (n / 10)) ((48 + n % 10) ∷ []) rest)
        (parse_digits-digits_of fuel (n / 10) ((48 + n % 10) ∷ rest)
            (omega (arith, pow-suc 10 fuel)) (omega arith)
          ∙ parse_digits_step (n / 10) (n % 10) rest (omega arith) (omega arith)
          ∙ ap (λ (m : ℕ). parse_digits m rest) (omega arith))
]

-- The text begins with a digit.
abbrev BeginsDigit : Text → Type 0
BeginsDigit [] = ⊥
BeginsDigit (c ∷ s) = is_digit c ≡ true

parse_u16-BeginsDigit : (s : Text) → BeginsDigit s → parse_u16 s ≡ parse_digits 0 s
unfolding parse_u16
parse_u16-BeginsDigit [] h = absurd h
parse_u16-BeginsDigit (c ∷ []) h = ground arith
parse_u16-BeginsDigit (c ∷ d ∷ s) h = ground arith

digits_of-BeginsDigit : (fuel n : ℕ) (rest : Text) → BeginsDigit (digits_of (suc fuel) n ++ rest)
unfolding digits_of
digits_of-BeginsDigit zero n rest = elim (Bool-cases (ltb n 10)) [
  | inl small ↦ rw small (ground arith)
  | inr big ↦ rw big (ground arith)
]
digits_of-BeginsDigit (suc fuel) n rest = elim (Bool-cases (ltb n 10)) [
  | inl small ↦ rw small (ground arith)
  | inr big ↦
      rw (big, append_assoc (digits_of (suc fuel) (n / 10)) ((48 + n % 10) ∷ []) rest)
        (digits_of-BeginsDigit fuel (n / 10) ((48 + n % 10) ∷ rest))
]

-- Reading a printed `u16` gives it back.
pub parse_u16-to_decimal : (n : ℕ) → n < 65536 → parse_u16 (to_decimal n) ≡ some n
unfolding to_decimal parse_digits
parse_u16-to_decimal n h = rw (← append-nil (digits_of 5 n)) (
    parse_u16-BeginsDigit (digits_of 5 n ++ []) (digits_of-BeginsDigit 4 n [])
    ∙ parse_digits-digits_of 5 n [] (omega arith) h)

digits_of-IsAscii : (fuel n : ℕ) → IsAscii (digits_of fuel n)
unfolding digits_of
digits_of-IsAscii zero n = tt
digits_of-IsAscii (suc fuel) n = elim (Bool-cases (ltb n 10)) [
  | inl small ↦ rw small (omega (arith, ltb→lt n 10 small), tt)
  | inr big ↦ rw big (
      All-append (λ b. b < 128) (digits_of fuel (n / 10)) ((48 + n % 10) ∷ [])
        (digits_of-IsAscii fuel (n / 10)) (omega arith))
]

pub to_decimal-IsAscii : (n : ℕ) → IsAscii (to_decimal n)
unfolding to_decimal
to_decimal-IsAscii n = digits_of-IsAscii 5 n

length-digits_of-le : (fuel n : ℕ) → length (digits_of fuel n) ≤ fuel
unfolding digits_of
length-digits_of-le zero n = omega arith
length-digits_of-le (suc fuel) n = elim (Bool-cases (ltb n 10)) [
  | inl small ↦ rw small (omega arith)
  | inr big ↦ rw big (
      omega (
        arith,
        length-append (digits_of fuel (n / 10)) ((48 + n % 10) ∷ []),
        length-digits_of-le fuel (n / 10),
      ))
]

pub length-to_decimal-le : (n : ℕ) → length (to_decimal n) ≤ 5
unfolding to_decimal
length-to_decimal-le n = length-digits_of-le 5 n

-- Only digits are printed.
digits_of-IsDigit : (fuel n : ℕ) → All (λ c. is_digit c ≡ true) (digits_of fuel n)
unfolding digits_of
digits_of-IsDigit zero n = tt
digits_of-IsDigit (suc fuel) n = elim (Bool-cases (ltb n 10)) [
  | inl small ↦ rw small (ground arith, tt)
  | inr big ↦ rw big (
      All-append (λ c. is_digit c ≡ true) (digits_of fuel (n / 10)) ((48 + n % 10) ∷ [])
        (digits_of-IsDigit fuel (n / 10)) (ground arith, tt))
]

lacks_of :
    (c : ℕ) (s : Text) → is_digit c ≡ false → All (λ d. is_digit d ≡ true) s → All (λ d. d ≢ c) s
lacks_of c [] h a = tt
lacks_of c (d ∷ s) h a = (λ e. ground arith, lacks_of c s h a.1)

-- A byte that is no digit does not occur in a printed number.
pub to_decimal-Lacks : (n c : ℕ) → is_digit c ≡ false → All (λ d. d ≢ c) (to_decimal n)
unfolding to_decimal
to_decimal-Lacks n c h = lacks_of c (digits_of 5 n) h (digits_of-IsDigit 5 n)

digits-visible : (s : Text) → All (λ c. is_digit c ≡ true) s → All (λ b. (32 < b) × (b < 128)) s
digits-visible [] h = tt
digits-visible (c ∷ s) h = (ground arith, digits-visible s h.1)

pub to_decimal-IsVisible : (n : ℕ) → All (λ b. (32 < b) × (b < 128)) (to_decimal n)
unfolding to_decimal
to_decimal-IsVisible n = digits-visible (digits_of 5 n) (digits_of-IsDigit 5 n)

value-digits_of :
    (fuel n : ℕ) (rest : Text) → n < 10 ^ fuel → value 0 (digits_of fuel n ++ rest) ≡ value n rest
unfolding digits_of value
value-digits_of zero n rest h = ap (λ (m : ℕ). value m rest) (omega arith)
value-digits_of (suc fuel) n rest h = elim (Bool-cases (ltb n 10)) [
  | inl small ↦ rw small (ap (λ (m : ℕ). value m rest) (omega arith))
  | inr big ↦
      rw (big, append_assoc (digits_of fuel (n / 10)) ((48 + n % 10) ∷ []) rest)
        (value-digits_of fuel (n / 10) ((48 + n % 10) ∷ rest) (omega (arith, pow-suc 10 fuel))
          ∙ ap (λ (m : ℕ). value m rest) (omega arith))
]

-- The digits of a number below 2^64 stand for it.
pub value-show_usize : (n : ℕ) → n < 2 ^ 64 → value 0 (show_usize n) ≡ n
unfolding show_usize value
value-show_usize n h =
    ap (value 0) (sym (append-nil (digits_of 20 n))) ∙ value-digits_of 20 n [] (omega arith)
