-- ===== src/Dash/Assoc.antt =====
-- Association lists meet the laws of `DashMap`.
use mytunnel.Prelude.{
  ◌≡◌, ◌≢◌, refl, sym, ◌∙◌, ap, subst, fun_ext, inl, inr, Bool, Option, none, some, List, [], ◌∷◌,
  All, arith, if◌then◌else◌, Bool-cases,
}
use mathlib.Core.Logic.{ite, if_pos, if_neg}
use mytunnel.Dash.{DashMap, keep_if, Elem, DistinctKeys}

same_entry :
    {K V : Type 0} (j k : K) (v w : V) → j ≡ k → some w ≡ some v → ◌≡◌ {A = K × V} (k, v) (j, w)
same_entry j k v w e h = ground arith

module _ {K V : Type 0} (same : Discrete K) where
  unfoldable pub get : K → List (K × V) → Option V
  get k [] = none
  get k ((j, v) ∷ m) = ite (same j k) (some v) (get k m)

  unfoldable pub without : K → List (K × V) → List (K × V)
  without k [] = []
  without k ((j, v) ∷ m) = ite (same j k) (without k m) ((j, v) ∷ without k m)

  unfoldable pub filter_by : (K → V → Bool) → List (K × V) → List (K × V)
  filter_by p [] = []
  filter_by p ((j, v) ∷ m) = if p j v then (j, v) ∷ filter_by p m else filter_by p m

  -- Only the first entry of each key.
  unfoldable pub dedup : List (K × V) → List (K × V)
  unfolding without
  dedup [] = []
  dedup ((j, v) ∷ m) = (j, v) ∷ without j (dedup m)

  pub get-nil : (k : K) → get k [] ≡ none
  unfolding get
  get-nil k = refl

  pub get-without_self : (k : K) (m : List (K × V)) → get k (without k m) ≡ none
  unfolding get without
  get-without_self k [] = refl
  get-without_self k ((j, v) ∷ m) = elim (same j k) [
    | yes e ↦ rw (if_pos _ e) (get-without_self k m)
    | no n ↦ rw (if_neg _ n, if_neg _ n) (get-without_self k m)
  ]

  pub get-without_ne : (k j : K) (m : List (K × V)) → j ≢ k → get j (without k m) ≡ get j m
  unfolding get without
  get-without_ne k j [] h = refl
  get-without_ne k j ((i, v) ∷ m) h = elim (same i k) [
    | yes e ↦ rw (if_pos _ e, if_neg _ (λ q. h (sym q ∙ e))) (get-without_ne k j m h)
    | no n ↦ elim (same i j) [
      | yes e ↦ rw (if_neg (same i k) n) (rw (if_pos _ e) (rw (if_pos _ e)))
      | no o ↦ rw (if_neg (same i k) n) (rw (if_neg _ o) (rw (if_neg _ o) (get-without_ne k j m h)))
    ]
  ]

  get-dedup : (k : K) (m : List (K × V)) → get k (dedup m) ≡ get k m
  unfolding get dedup
  get-dedup k [] = refl
  get-dedup k ((j, v) ∷ m) = elim (same j k) [
    | yes e ↦ rw (if_pos _ e) (rw (if_pos _ e))
    | no n ↦
        rw (if_neg (same j k) n)
          (rw (if_neg (same j k) n) (get-without_ne j k (dedup m) (λ q. n (sym q)) ∙ get-dedup k m))
  ]

  All-without : (P : K × V → Type 0) (k : K) (m : List (K × V)) → All P m → All P (without k m)
  unfolding without
  All-without P k [] h = tt
  All-without P k ((j, v) ∷ m) h = elim (same j k) [
    | yes e ↦ rw (if_pos _ e) (All-without P k m h.1)
    | no n ↦ rw (if_neg _ n) (h.0, All-without P k m h.1)
  ]

  without-absent : (k : K) (m : List (K × V)) → All (λ d. d.0 ≢ k) (without k m)
  unfolding without
  without-absent k [] = tt
  without-absent k ((j, v) ∷ m) = elim (same j k) [
    | yes e ↦ rw (if_pos _ e) (without-absent k m)
    | no n ↦ rw (if_neg _ n) (n, without-absent k m)
  ]

  DistinctKeys-without : (k : K) (m : List (K × V)) → DistinctKeys m → DistinctKeys (without k m)
  unfolding without
  DistinctKeys-without k [] h = tt
  DistinctKeys-without k ((j, v) ∷ m) h = elim (same j k) [
    | yes e ↦ rw (if_pos _ e) (DistinctKeys-without k m h.1)
    | no n ↦ rw (if_neg _ n) (All-without (λ d. d.0 ≢ j) k m h.0, DistinctKeys-without k m h.1)
  ]

  pub dedup-DistinctKeys : (m : List (K × V)) → DistinctKeys (dedup m)
  unfolding dedup
  dedup-DistinctKeys [] = tt
  dedup-DistinctKeys ((j, v) ∷ m) =
      (without-absent j (dedup m), DistinctKeys-without j (dedup m) (dedup-DistinctKeys m))

  get-absent : (k : K) (m : List (K × V)) → All (λ d. d.0 ≢ k) m → get k m ≡ none
  unfolding get
  get-absent k [] h = refl
  get-absent k ((j, v) ∷ m) h = rw (if_neg _ h.0) (get-absent k m h.1)

  All-filter_by :
      (P : K × V → Type 0) (p : K → V → Bool) (m : List (K × V)) → All P m → All P (filter_by p m)
  unfolding filter_by
  All-filter_by P p [] h = tt
  All-filter_by P p ((j, v) ∷ m) h = elim (Bool-cases (p j v)) [
    | inl e ↦ rw e (h.0, All-filter_by P p m h.1)
    | inr e ↦ rw e (All-filter_by P p m h.1)
  ]

  get-filter_by :
      (p : K → V → Bool) (k : K) (m : List (K × V))
      → DistinctKeys m
      → get k (filter_by p m) ≡ keep_if (p k) (get k m)
  unfolding get filter_by
  get-filter_by p k [] h = refl
  get-filter_by p k ((j, v) ∷ m) h = elim (same j k) [
    | yes e ↦ elim (Bool-cases (p j v)) [
      | inl b ↦ rw b (rw (if_pos _ e) (rw (if_pos _ e, ← e, b)))
      | inr b ↦ rw b (
          rw (if_pos _ e, ← e, b)
            (get-absent j (filter_by p m) (All-filter_by (λ d. d.0 ≢ j) p m h.0)))
    ]
    | no n ↦ elim (Bool-cases (p j v)) [
      | inl b ↦ rw b (rw (if_neg _ n) (rw (if_neg _ n) (get-filter_by p k m h.1)))
      | inr b ↦ rw b (rw (if_neg _ n) (get-filter_by p k m h.1))
    ]
  ]

  held_later :
      (j : K) (v : V) (m es : List (K × V))
      → All (λ d. d.0 ≢ j) es
      → All (λ e. get e.0 m ≡ some e.1) es
      → All (λ e. get e.0 ((j, v) ∷ m) ≡ some e.1) es
  unfolding get
  held_later j v m [] a h = tt
  held_later j v m (e ∷ es) a h =
      (rw (if_neg (same j e.0) (λ q. a.0 (sym q))) h.0, held_later j v m es a.1 h.1)

  distinct-held : (m : List (K × V)) → DistinctKeys m → All (λ e. get e.0 m ≡ some e.1) m
  unfolding get
  distinct-held [] h = tt
  distinct-held ((j, v) ∷ m) h =
      (rw (if_pos (same j j) refl), held_later j v m m h.0 (distinct-held m h.1))

  get-Elem : (k : K) (v : V) (m : List (K × V)) → get k m ≡ some v → Elem (k, v) m
  unfolding get
  get-Elem k v [] h = cc
  get-Elem k v ((j, w) ∷ m) h = elim (same j k) [
    | yes e ↦ inl (same_entry j k v w e (rw (if_pos (same j k) e) at h))
    | no n ↦ inr (get-Elem k v m (rw (if_neg (same j k) n) at h))
  ]

  pub get-cons_self : (k : K) (v : V) (m : List (K × V)) → get k ((k, v) ∷ m) ≡ some v
  unfolding get
  get-cons_self k v m = rw (if_pos (same k k) refl)

  pub get-cons_ne : (k j : K) (v : V) (m : List (K × V)) → j ≢ k → get j ((k, v) ∷ m) ≡ get j m
  unfolding get
  get-cons_ne k j v m h = rw (if_neg (same k j) (λ q. h (sym q)))

  pub get-retain :
      (p : K → V → Bool) (k : K) (m : List (K × V))
      → get k (filter_by p (dedup m)) ≡ keep_if (p k) (get k m)
  get-retain p k m =
      get-filter_by p k (dedup m) (dedup-DistinctKeys m) ∙ ap (keep_if (p k)) (get-dedup k m)

  pub dedup-held : (m : List (K × V)) → All (λ e. get e.0 m ≡ some e.1) (dedup m)
  dedup-held m =
      subst (λ (f : K → Option V). All (λ e. f e.0 ≡ some e.1) (dedup m))
        (fun_ext (λ k. get-dedup k m)) (distinct-held (dedup m) (dedup-DistinctKeys m))

  pub dedup-all : (k : K) (v : V) (m : List (K × V)) → get k m ≡ some v → Elem (k, v) (dedup m)
  dedup-all k v m h = get-Elem k v (dedup m) (get-dedup k m ∙ h)

-- The map that tests run on.
abbrev pub assoc_map : {K : Type 0} (V : Type 0) → Discrete K → DashMap K V
assoc_map {K} V same = record {
  Map = List (K × V);
  empty = [];
  get = get same;
  insert = λ k v m. (k, v) ∷ m;
  remove = λ k m. (get same k m, without same k m);
  retain = λ p m. filter_by same p (dedup same m);
  iter = dedup same;
  get-empty = get-nil same;
  get-insert_self = get-cons_self same;
  get-insert_ne = get-cons_ne same;
  remove_value = λ k m. refl;
  get-remove_self = get-without_self same;
  get-remove_ne = get-without_ne same;
  get-retain = get-retain same;
  iter_held = dedup-held same;
  iter_all = dedup-all same;
  iter_distinct = dedup-DistinctKeys same;
}
