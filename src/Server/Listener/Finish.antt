-- ===== src/Server/Listener/Finish.antt =====
-- How far a handler has got, and the actions that bring it to its end.
use mytunnel.Prelude.{
  ℕ, zero, suc, ◌<◌, ◌≡◌, refl, sym, ap, ◌∙◌, subst, Bool, true, false, Option, none, some, List,
  [], ◌∷◌, ◌++◌, length, length-set, get_or, set, ◌==◌, if◌then◌else◌, Bool-cases, inl, inr, ◌⊎◌,
  arith, ==_refl,
}
use mytunnel.Server.Listener.{
  Task, handshaking, registered, serving, leaving, finished, Pass, stream, failed_accept, datagram,
  closed_datagram, failed_datagram, shutdown, Action, fails, registers, activates, passes, returns,
}
use mytunnel.Server.Listener.Tasks.{IsLive, at-set}

-- The places of a handler, without its address or identifier.
pub data Stage : Type 0 where
  shaking known looping quitting over : Stage

abbrev pub stage_of : {Addr : Type 0} → Task Addr → Stage
stage_of (handshaking addr) = shaking
stage_of (registered id) = known
stage_of (serving id) = looping
stage_of (leaving id) = quitting
stage_of finished = over

-- What ends a handler's loop: the signal, or an error of its connection.
abbrev pub ends_loop : Pass → Bool
ends_loop stream = false
ends_loop failed_accept = true
ends_loop datagram = false
ends_loop closed_datagram = true
ends_loop failed_datagram = false
ends_loop shutdown = true

abbrev pub is_move : ℕ → Option ℕ → Bool
is_move i none = false
is_move i (some j) = i == j

module _ {Addr : Type 0} where
  -- The number of the task that an action moves.
  abbrev pub mover : Action Addr → Option ℕ
  mover (fails i) = some i
  mover (registers i now) = some i
  mover (activates i now) = some i
  mover (passes i p) = some i
  mover (returns i) = some i
  mover _ = none

  -- Where an action of its own brings a handler; one that does not fit brings it nowhere.
  abbrev pub own_stage : Action Addr → Stage → Stage
  own_stage (fails i) shaking = over
  own_stage (registers i now) shaking = known
  own_stage (activates i now) known = looping
  own_stage (passes i p) looping = if ends_loop p then quitting else looping
  own_stage (returns i) quitting = over
  own_stage a stage = stage

  -- Where a list of actions brings the handler with a number; those of others bring it nowhere.
  unfoldable pub stages : ℕ → List (Action Addr) → Stage → Stage
  stages i [] stage = stage
  stages i (a ∷ actions) stage =
      stages i actions (if is_move i (mover a) then own_stage a stage else stage)

  -- The task has returned, or stands where the stage says.
  abbrev pub Fits : Stage → Task Addr → Type 0
  Fits stage t = (t ≡ finished) ⊎ (stage_of t ≡ stage)

  pub Fits-over : (t : Task Addr) → Fits over t → t ≡ finished
  Fits-over t (inl e) = e
  Fits-over (handshaking addr) (inr e) = absurd cc
  Fits-over (registered id) (inr e) = absurd cc
  Fits-over (serving id) (inr e) = absurd cc
  Fits-over (leaving id) (inr e) = absurd cc
  Fits-over finished (inr e) = refl

  -- An action of the task `t` leaves the tasks as they are, or sets that one.
  abbrev pub Shifts : Action Addr → ℕ → Task Addr → (ts ts' : List (Task Addr)) → Type 0
  Shifts a i t ts ts' =
      ((ts' ≡ ts) × (own_stage a (stage_of t) ≡ stage_of t))
      ⊎ ((t' : Task Addr) × IsLive t × (ts' ≡ set ts i t') × Fits (own_stage a (stage_of t)) t')

  pub get_or-append :
      (ts more : List (Task Addr)) (i : ℕ)
      → i < length ts
      → get_or (ts ++ more) i finished ≡ get_or ts i finished
  get_or-append [] more i small = absurd (omega arith)
  get_or-append (t ∷ ts) more zero small = refl
  get_or-append (t ∷ ts) more (suc i) small = get_or-append ts more i (omega arith)

  Fits-own :
      (a : Action Addr) (stage : Stage) (t : Task Addr)
      → own_stage a (stage_of t) ≡ stage_of t
      → Fits stage t
      → Fits (own_stage a stage) t
  Fits-own a stage t e (inl d) = inl d
  Fits-own a stage t e (inr q) = inr (sym e ∙ ap (own_stage a) q)

  Fits-moved :
      (a : Action Addr) (stage : Stage) (t t' : Task Addr)
      → IsLive t
      → Fits (own_stage a (stage_of t)) t'
      → Fits stage t
      → Fits (own_stage a stage) t'
  Fits-moved a stage t t' live moved (inl d) = absurd (subst IsLive d live)
  Fits-moved a stage t t' live (inl d) (inr q) = inl d
  Fits-moved a stage t t' live (inr e) (inr q) = inr (e ∙ ap (own_stage a) q)

  -- Where the handler with the number `i` stands after an action of the task with the number `j`.
  pub Shifts-Fits :
      (a : Action Addr) (i j : ℕ) (stage : Stage) (ts ts' : List (Task Addr))
      → Shifts a j (get_or ts j finished) ts ts'
      → Fits stage (get_or ts i finished)
      → Fits (if i == j then own_stage a stage else stage) (get_or ts' i finished)
  Shifts-Fits a i j stage ts ts' shifts fits = elim (Bool-cases (i == j)) [
    | inl q ↦
        let same : j ≡ i = ground arith in
        let shifts' = subst (λ (k : ℕ). Shifts a k (get_or ts k finished) ts ts') same shifts in
        rw q (own shifts')
    | inr q ↦ rw q (other q shifts)
  ]
    where
      own :
          Shifts a i (get_or ts i finished) ts ts'
          → Fits (own_stage a stage) (get_or ts' i finished)
      own (inl (e, still)) =
          subst (λ l. Fits (own_stage a stage) (get_or l i finished)) (sym e)
            (Fits-own a stage (get_or ts i finished) still fits)
      own (inr (t', live, e, moved)) =
          subst (λ l. Fits (own_stage a stage) (get_or l i finished)) (sym e)
            (subst (Fits (own_stage a stage)) (sym (at-set ts i i t' live ∙ rw (==_refl i) refl))
              (Fits-moved a stage (get_or ts i finished) t' live moved fits))

      other :
          (i == j) ≡ false
          → Shifts a j (get_or ts j finished) ts ts'
          → Fits stage (get_or ts' i finished)
      other q (inl (e, still)) = subst (λ l. Fits stage (get_or l i finished)) (sym e) fits
      other q (inr (t', live, e, moved)) =
          subst (λ l. Fits stage (get_or l i finished)) (sym e)
            (subst (Fits stage) (sym (at-set ts j i t' live ∙ rw q refl)) fits)

  pub Shifts-length :
      (a : Action Addr) (j : ℕ) (t : Task Addr) (ts ts' : List (Task Addr))
      → Shifts a j t ts ts'
      → length ts' ≡ length ts
  Shifts-length a j t ts ts' (inl (e, still)) = ap length e
  Shifts-length a j t ts ts' (inr (t', live, e, moved)) = ap length e ∙ length-set ts j t'
