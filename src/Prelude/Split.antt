-- ===== src/Prelude/Split.antt =====
-- Splitting strings at a byte: `str::find`, `str::rsplitn(2, ..)`, `str::rsplit_once`.
use Prim.Native.Nat.{ℕ}
use mathlib.Core.Path.{◌≡◌, refl}
use mathlib.Core.Logic.{◌≢◌, inl, inr}
use mathlib.Core.Option.{Option, none, some}
use mathlib.Core.List.{[], ◌∷◌, ◌++◌}
use native.Mathlib.Omega.{arith}
use mytunnel.Prelude.Tests.{◌==◌, if◌then◌else◌, Bool-cases}
use mytunnel.Prelude.Lists.{All}
use mytunnel.Prelude.Strings.{Text}

-- What stands before and behind the first byte `c`.
unfoldable pub split_first : ℕ → Text → Option (Text × Text)
split_first c [] = none
split_first c (x ∷ s) =
    if x == c
    then some ([], s)
    else elim (split_first c s) [ none ↦ none | some (before, behind) ↦ some (x ∷ before, behind) ]

-- What stands before and behind the last byte `c`.
unfoldable pub split_last : ℕ → Text → Option (Text × Text)
split_last c [] = none
split_last c (x ∷ s) = elim (split_last c s) [
  | some (before, behind) ↦ some (x ∷ before, behind)
  | none ↦ if x == c then some ([], s) else none
]

-- The byte does not occur.
abbrev pub Lacks : ℕ → Text → Type 0
Lacks c = All (λ x. x ≢ c)

pub split_first_lem :
    (c : ℕ) (before behind : Text)
    → Lacks c before
    → split_first c (before ++ c ∷ behind) ≡ some (before, behind)
unfolding split_first
split_first_lem c [] behind h = ground arith
split_first_lem c (x ∷ before) behind h = ground (arith, h.0, split_first_lem c before behind h.1)

pub split_last-Lacks : (c : ℕ) (s : Text) → Lacks c s → split_last c s ≡ none
unfolding split_last
split_last-Lacks c [] h = refl
split_last-Lacks c (x ∷ s) h = ground (arith, h.0, split_last-Lacks c s h.1)

pub split_last_lem :
    (c : ℕ) (before behind : Text)
    → Lacks c behind
    → split_last c (before ++ c ∷ behind) ≡ some (before, behind)
unfolding split_last
split_last_lem c [] behind h = ground (arith, split_last-Lacks c behind h)
split_last_lem c (x ∷ before) behind h = ground (arith, split_last_lem c before behind h)

-- What was split is put together again.
first_step :
    (c x : ℕ) (s before behind : Text) (o : Option (Text × Text))
    → ((b d : Text) → o ≡ some (b, d) → s ≡ b ++ c ∷ d)
    → ◌≡◌ {A = Option (Text × Text)}
        (elim o [ none ↦ none | some (b, d) ↦ some (x ∷ b, d) ])
        (some (before, behind))
    → ◌≡◌ {A = Text} (x ∷ s) (before ++ c ∷ behind)
first_step c x s before behind none ih h = cc
first_step c x s before behind (some (b, d)) ih h = let e = ih b d refl in ground arith

pub split_first-inverse :
    (c : ℕ) (s before behind : Text)
    → split_first c s ≡ some (before, behind)
    → s ≡ before ++ c ∷ behind
unfolding split_first
split_first-inverse c [] before behind h = cc
split_first-inverse c (x ∷ s) before behind h = elim (Bool-cases (x == c)) [
  | inl same ↦ ground arith
  | inr other ↦
      first_step c x s before behind (split_first c s) (split_first-inverse c s) (rw other at h)
]

last_step :
    (c x : ℕ) (s before behind : Text) (o : Option (Text × Text))
    → ((b d : Text) → o ≡ some (b, d) → s ≡ b ++ c ∷ d)
    → ◌≡◌ {A = Option (Text × Text)}
        (elim o [ some (b, d) ↦ some (x ∷ b, d) | none ↦ if x == c then some ([], s) else none ])
        (some (before, behind))
    → ◌≡◌ {A = Text} (x ∷ s) (before ++ c ∷ behind)
last_step c x s before behind none ih h = ground arith
last_step c x s before behind (some (b, d)) ih h = let e = ih b d refl in ground arith

pub split_last-inverse :
    (c : ℕ) (s before behind : Text)
    → split_last c s ≡ some (before, behind)
    → s ≡ before ++ c ∷ behind
unfolding split_last
split_last-inverse c [] before behind h = cc
split_last-inverse c (x ∷ s) before behind h =
    last_step c x s before behind (split_last c s) (split_last-inverse c s) h
