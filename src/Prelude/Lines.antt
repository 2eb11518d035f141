-- ===== src/Prelude/Lines.antt =====
-- `read_line` of a buffered reader.
use Prim.Native.Nat.{ℕ}
use mathlib.Core.Path.{◌≡◌, refl, ap}
use mathlib.Core.Logic.{inl, inr}
use mathlib.Core.List.{List, [], ◌∷◌, ◌++◌}
use native.Mathlib.Omega.{arith}
use mytunnel.Prelude.Tests.{◌==◌, if◌then◌else◌, Bool-cases}
use mytunnel.Prelude.Strings.{Text}
use mytunnel.Prelude.Split.{Lacks}

-- What the calls of `read_line` return, up to the end of the stream: each line with its newline.
prepend : ℕ → List Text → List Text
prepend c [] = (c ∷ []) ∷ []
prepend c (l ∷ ls) = (c ∷ l) ∷ ls

unfoldable pub lines_of : Text → List Text
unfolding prepend
lines_of [] = []
lines_of (c ∷ s) = if c == 10 then (10 ∷ []) ∷ lines_of s else prepend c (lines_of s)

-- All the bytes of some lines.
unfoldable pub join_lines : List Text → Text
join_lines [] = []
join_lines (l ∷ ls) = l ++ join_lines ls

join-prepend : (c : ℕ) (ls : List Text) → join_lines (prepend c ls) ≡ c ∷ join_lines ls
unfolding join_lines prepend
join-prepend c [] = refl
join-prepend c (l ∷ ls) = refl

-- No byte is lost or reordered.
pub join-lines_of : (s : Text) → join_lines (lines_of s) ≡ s
unfolding join_lines lines_of
join-lines_of [] = refl
join-lines_of (c ∷ s) = elim (Bool-cases (c == 10)) [
  | inl end ↦ rw (end, join-lines_of s) (ground arith)
  | inr more ↦ rw (more, join-prepend) (ap (◌∷◌ c) (join-lines_of s))
]

-- A line without a newline inside, then the rest.
pub lines_of_line : (l s : Text) → Lacks 10 l → lines_of (l ++ 10 ∷ s) ≡ (l ++ 10 ∷ []) ∷ lines_of s
unfolding lines_of prepend
lines_of_line [] s h = refl
lines_of_line (c ∷ l) s h = let ih = lines_of_line l s h.1 in ground (arith, h.0, ih)
