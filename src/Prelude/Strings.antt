-- ===== src/Prelude/Strings.antt =====
-- Rust strings as their bytes: literals, comparison, and the check of `String::from_utf8`.
use Prim.Native.Nat.{ℕ, ◌<◌}
use Prim.Native.Char.{code}
use Prim.Native.String.{String}
use mathlib.Core.Path.{◌≡◌, refl}
use mathlib.Core.Bool.{Bool, true, false, ◌&&◌}
use mathlib.Core.Logic.{◌↔◌}
use mathlib.Core.Option.{Option, none, some}
use mathlib.Core.List.{List, [], ◌∷◌}
use native.Mathlib.Omega.{arith}
use mytunnel.Prelude.Tests.{ltb, leb, lt→ltb, ◌==◌, if◌then◌else◌}
use mytunnel.Prelude.Lists.{All}

abbrev pub Text : Type 0
Text = List ℕ

-- The bytes of an ASCII literal.
abbrev pub text : String → Text
text String.[] = []
text (String.◌∷◌ c s) = code c ∷ text s

-- `==` on strings.
unfoldable pub text_eq : Text → Text → Bool
text_eq [] [] = true
text_eq [] (y ∷ ys) = false
text_eq (x ∷ xs) [] = false
text_eq (x ∷ xs) (y ∷ ys) = x == y && text_eq xs ys

pub text_eq_sound : (xs ys : Text) → text_eq xs ys ≡ true → xs ≡ ys
unfolding text_eq
text_eq_sound [] [] h = refl
text_eq_sound [] (y ∷ ys) h = cc
text_eq_sound (x ∷ xs) [] h = cc
text_eq_sound (x ∷ xs) (y ∷ ys) h = ground (arith, text_eq_sound xs ys)

pub text_eq_refl : (xs : Text) → text_eq xs xs ≡ true
unfolding text_eq
text_eq_refl [] = refl
text_eq_refl (x ∷ xs) = ground (arith, text_eq_refl xs)

pub text_eq_iff : (xs ys : Text) → (text_eq xs ys ≡ true) ↔ (xs ≡ ys)
text_eq_iff xs ys = (text_eq_sound xs ys, λ e. rw e (text_eq_refl ys))

abbrev between : ℕ → ℕ → ℕ → Bool
between lo hi b = leb lo b && leb b hi

-- The ranges in which the bytes after a first byte of UTF-8 have to lie; `none` if none may begin so.
utf8_lead : ℕ → Option (List (ℕ × ℕ))
utf8_lead a =
    if ltb a 0x80
    then some []
    else if between 0xc2 0xdf a
    then some ((0x80, 0xbf) ∷ [])
    else if a == 0xe0
    then some ((0xa0, 0xbf) ∷ (0x80, 0xbf) ∷ [])
    else if a == 0xed
    then some ((0x80, 0x9f) ∷ (0x80, 0xbf) ∷ [])
    else if between 0xe1 0xef a
    then some ((0x80, 0xbf) ∷ (0x80, 0xbf) ∷ [])
    else if a == 0xf0
    then some ((0x90, 0xbf) ∷ (0x80, 0xbf) ∷ (0x80, 0xbf) ∷ [])
    else if a == 0xf4
    then some ((0x80, 0x8f) ∷ (0x80, 0xbf) ∷ (0x80, 0xbf) ∷ [])
    else if between 0xf1 0xf3 a
    then some ((0x80, 0xbf) ∷ (0x80, 0xbf) ∷ (0x80, 0xbf) ∷ [])
    else none

utf8_run : List (ℕ × ℕ) → Text → Bool
utf8_run [] [] = true
utf8_run (r ∷ rs) [] = false
utf8_run [] (a ∷ s) = elim (utf8_lead a) [ none ↦ false | some ranges ↦ utf8_run ranges s ]
utf8_run ((lo, hi) ∷ rs) (b ∷ s) = between lo hi b && utf8_run rs s

-- Whether the bytes are well-formed UTF-8: no overlong form, no surrogate, nothing past U+10FFFF.
unfoldable pub is_utf8 : Text → Bool
unfolding utf8_lead utf8_run
is_utf8 = utf8_run []

abbrev pub IsAscii : Text → Type 0
IsAscii s = All (λ b. b < 128) s

pub is_utf8-IsAscii : (s : Text) → IsAscii s → is_utf8 s ≡ true
unfolding is_utf8
is_utf8-IsAscii [] h = refl
is_utf8-IsAscii (b ∷ s) h = rw (lt→ltb b 0x80 h.0, utf8_lead, utf8_run) (is_utf8-IsAscii s h.1)
