-- ===== src/Connection/Cleanup/Loop.antt =====
-- The loop of `cleanup_idle` in src/connection/manager.rs that unregisters.
use mytunnel.Prelude.{
  ℕ, suc, ◌+◌, ◌≡◌, ◌≢◌, refl, sym, ◌∙◌, subst, Bool, false, none, some, List, [], ◌∷◌, All,
  contains, arith, ◌==◌, if◌then◌else◌, Bool-cases, Option-cases, inl, inr,
}
use mytunnel.Dash.{DashMap}
use mytunnel.Metrics.{Metrics}
use mytunnel.Pool.Slab.{SlabHandle}
use mytunnel.Connection.State.{ConnectionId}
use mytunnel.Connection.{ConnectionManager, get, unregister, unregister_all, connection_count}
use mytunnel.Connection.Tracks.{Tracks}
use mytunnel.Connection.Tracks.Unregister.{Unregisters, unregister-Unregisters}

abbrev pub Distinct : List ℕ → Type 0
Distinct [] = Unit {0}
Distinct (x ∷ xs) = (contains xs x ≡ false) × Distinct xs

module _ {Addr : Type 0} {dash : DashMap ConnectionId SlabHandle} where
  -- The loop of `cleanup_idle` started with a count.
  abbrev pub Cleans :
      (ConnectionId → Bool)
      → ℕ
      → ConnectionManager Addr dash
      → ℕ × (ConnectionManager Addr dash × Metrics)
      → Type 0
  Cleans goes cleaned m (n, (m', metrics')) =
      Tracks m'
      × ((j : ConnectionId) → get j m' ≡ (if goes j then none else get j m))
      × (connection_count m' + n ≡ connection_count m + cleaned)

  known_after :
      (m m' : ConnectionManager Addr dash) (id : ConnectionId) (ids : List ConnectionId)
      → ((j : ConnectionId) → get j m' ≡ (if j == id then none else get j m))
      → contains ids id ≡ false
      → All (λ i. get i m ≢ none) ids
      → All (λ i. get i m' ≢ none) ids
  unfolding contains
  known_after m m' id [] gone fresh known = tt
  known_after m m' id (i ∷ ids) gone fresh known = elim (Bool-cases (i == id)) [
    | inl same ↦ absurd (ground arith)
    | inr other ↦ (
      λ e. known.0 (sym (gone i ∙ rw other refl) ∙ e),
      known_after m m' id ids gone (ground arith) known.1,
    )
  ]

  pub unregister_all-Cleans :
      (ids : List ConnectionId) (cleaned : ℕ) (m : ConnectionManager Addr dash) (metrics : Metrics)
      → Tracks m
      → Distinct ids
      → All (λ i. get i m ≢ none) ids
      → Cleans (contains ids) cleaned m (unregister_all ids cleaned (m, metrics))
  unfolding contains unregister_all
  unregister_all-Cleans [] cleaned m metrics ok distinct known = (ok, (λ j. refl), refl)
  unregister_all-Cleans (id ∷ ids) cleaned m metrics ok distinct known =
      elim (Option-cases (get id m)) [
        | inl e ↦ absurd (known.0 e)
        | inr (st, e) ↦
            let (m', metrics') = unregister id (m, metrics) in
            let (ok', config, gone, count, closed) : Unregisters m metrics id ok (some st)
                (m', metrics') =
              subst (λ o. Unregisters m metrics id ok o (m', metrics')) e
                (unregister-Unregisters m metrics id ok) in
            let (ok'', all_gone, total) =
              unregister_all-Cleans ids (suc cleaned) m' metrics' ok' distinct.1
                (known_after m m' id ids gone distinct.0 known.1) in
            (ok'', λ j. all_gone j ∙ ground (arith, gone j), omega (arith, total, count))
      ]
