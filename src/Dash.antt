-- ===== src/Dash.antt =====
-- What the program uses of the `dashmap` crate (a dependency) and of `HashMap`: a finite map, of which
-- each call is one step. The laws are the documented ones of a map; `iter` visits each entry once, in
-- an order that is not specified.
pub mod Assoc
use mytunnel.Prelude.{◌≡◌, ◌≢◌, ◌⊎◌, Bool, Option, none, some, List, [], ◌∷◌, All, if◌then◌else◌}

-- `retain` on what one key is mapped to.
abbrev pub keep_if {ℓ} : {V : Type ℓ} → (V → Bool) → Option V → Option V
keep_if p none = none
keep_if p (some v) = if p v then some v else none

abbrev pub Elem : {A : Type 0} → A → List A → Type 0
Elem a [] = ⊥
Elem a (x ∷ xs) = (a ≡ x) ⊎ Elem a xs

-- No key stands in two entries.
abbrev pub DistinctKeys : {K V : Type 0} → List (K × V) → Type 0
DistinctKeys [] = Unit {0}
DistinctKeys (e ∷ es) = All (λ d. d.0 ≢ e.0) es × DistinctKeys es

pub record DashMap (K V : Type 0) : Type 1 where
  pub Map : Type 0
  pub empty : Map
  pub get : K → Map → Option V
  pub insert : K → V → Map → Map
  pub remove : K → Map → Option V × Map
  pub retain : (K → V → Bool) → Map → Map
  pub iter : Map → List (K × V)
  pub get-empty : (k : K) → get k empty ≡ none
  pub get-insert_self : (k : K) (v : V) (m : Map) → get k (insert k v m) ≡ some v
  pub get-insert_ne : (k j : K) (v : V) (m : Map) → j ≢ k → get j (insert k v m) ≡ get j m
  pub remove_value : (k : K) (m : Map) → (remove k m).0 ≡ get k m
  pub get-remove_self : (k : K) (m : Map) → get k (remove k m).1 ≡ none
  pub get-remove_ne : (k j : K) (m : Map) → j ≢ k → get j (remove k m).1 ≡ get j m
  pub get-retain :
      (p : K → V → Bool) (k : K) (m : Map) → get k (retain p m) ≡ keep_if (p k) (get k m)
  pub iter_held : (m : Map) → All (λ e. get e.0 m ≡ some e.1) (iter m)
  pub iter_all : (k : K) (v : V) (m : Map) → get k m ≡ some v → Elem (k, v) (iter m)
  pub iter_distinct : (m : Map) → DistinctKeys (iter m)
