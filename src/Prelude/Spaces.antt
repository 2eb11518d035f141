-- ===== src/Prelude/Spaces.antt =====
-- `str::split_whitespace` and `str::trim` on UTF-8.
use Prim.Native.Nat.{ℕ, zero, suc, ◌<◌}
use mathlib.Core.Path.{◌≡◌, refl, ap, ◌∙◌}
use mathlib.Core.Bool.{Bool, true, false, ◌&&◌, ◌||◌}
use mathlib.Core.List.{List, [], ◌∷◌, ◌++◌, append-nil, append_assoc}
use native.Mathlib.Omega.{arith}
use mytunnel.Prelude.Tests.{leb, ◌==◌, if◌then◌else◌}
use mytunnel.Prelude.Lists.{All}
use mytunnel.Prelude.Strings.{Text}

-- The length of the whitespace character (`char::is_whitespace`) that a text of UTF-8 begins with; 0 if
-- it begins with none.
space_len : Text → ℕ
space_len [] = 0
space_len (a ∷ s) =
    if (leb 9 a && leb a 13) || a == 32
    then 1
    else if a == 0xc2
    then two s
    else if a == 0xe1
    then three 0x9a 0x80 0x80 s
    else if a == 0xe2
    then e2 s
    else if a == 0xe3
    then three 0x80 0x80 0x80 s
    else 0
  where
    two : Text → ℕ
    two [] = 0
    two (b ∷ t) = if b == 0x85 || b == 0xa0 then 2 else 0

    three : ℕ → ℕ → ℕ → Text → ℕ
    three b lo hi [] = 0
    three b lo hi (x ∷ []) = 0
    three b lo hi (x ∷ y ∷ t) = if x == b && leb lo y && leb y hi then 3 else 0

    e2 : Text → ℕ
    e2 [] = 0
    e2 (x ∷ []) = 0
    e2 (x ∷ y ∷ t) =
        if x == 0x80 && (leb 0x80 y && leb y 0x8a || y == 0xa8 || y == 0xa9 || y == 0xaf)
        then 3
        else if x == 0x81 && y == 0x9f
        then 3
        else 0

-- A word that is not empty, before the others.
flush : Text → List Text → List Text
flush [] words = words
flush (c ∷ word) words = (c ∷ word) ∷ words

-- The words of a text, with the bytes to skip of a whitespace character and the word read so far.
words_from : ℕ → Text → Text → List Text
unfolding space_len flush
words_from skip word [] = flush word []
words_from (suc skip) word (c ∷ s) = words_from skip word s
words_from zero word (c ∷ s) = elim (space_len (c ∷ s)) [
  | zero ↦ words_from zero (word ++ c ∷ []) s
  | suc skip ↦ flush word (words_from skip [] s)
]

-- `str::split_whitespace`; trimming a text first does not change its words.
unfoldable pub split_whitespace : Text → List Text
unfolding words_from
split_whitespace s = words_from zero [] s

-- `s.trim().is_empty()`: the text has no word.
unfoldable pub is_blank : Text → Bool
unfolding split_whitespace
is_blank s = elim (split_whitespace s) [ [] ↦ true | ◌∷◌ w ws ↦ false ]

spaces :
    split_whitespace (32 ∷ 97 ∷ 0xc2 ∷ 0xa0 ∷ 98 ∷ 99 ∷ 0xe2 ∷ 0x80 ∷ 0x89 ∷ 13 ∷ 10 ∷ [])
    ≡ (97 ∷ []) ∷ (98 ∷ 99 ∷ []) ∷ []
unfolding split_whitespace
spaces = refl

-- Characters of ASCII that are neither spaces nor controls.
abbrev pub IsVisible : Text → Type 0
IsVisible = All (λ b. (32 < b) × (b < 128))

space_len-visible : (b : ℕ) (s : Text) → 32 < b → b < 128 → space_len (b ∷ s) ≡ 0
unfolding space_len
space_len-visible b s lo hi = ground arith

words_from-visible :
    (word w s : Text) → IsVisible w → words_from zero word (w ++ s) ≡ words_from zero (word ++ w) s
unfolding words_from
words_from-visible word [] s h = rw (append-nil word)
words_from-visible word (c ∷ w) s h =
    rw (space_len-visible c (w ++ s) h.0.0 h.0.1, words_from)
      (words_from-visible (word ++ c ∷ []) w s h.1
        ∙ ap (λ (x : Text). words_from zero x s) (append_assoc word (c ∷ []) w))

-- A visible word and the space behind it.
pub split_whitespace-word :
    (c : ℕ) (w s : Text)
    → IsVisible (c ∷ w)
    → split_whitespace ((c ∷ w) ++ 32 ∷ s) ≡ (c ∷ w) ∷ split_whitespace s
unfolding split_whitespace
split_whitespace-word c w s h =
    words_from-visible [] (c ∷ w) (32 ∷ s) h ∙ unfold words_from space_len flush in refl

-- A line end of CR and LF ends the last word.
pub split_whitespace-crlf :
    (c : ℕ) (w : Text)
    → IsVisible (c ∷ w)
    → split_whitespace ((c ∷ w) ++ 13 ∷ 10 ∷ []) ≡ (c ∷ w) ∷ []
unfolding split_whitespace
split_whitespace-crlf c w h =
    words_from-visible [] (c ∷ w) (13 ∷ 10 ∷ []) h ∙ unfold words_from space_len flush in refl
