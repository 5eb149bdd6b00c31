-- ===== src/Settle/Laws.antt =====
-- How a module's run ends, for every schedule of the event loop.
use supabase_lab.Common.{
  ℕ, ◌≡◌, refl, ◌⊎◌, inl, inr, Option, none, some, true, false, List, [], ◌∷◌, ◌++◌, All, arith,
}
use supabase_lab.Settle.{
  Outcome, settled, threw, drained, timeout, Event, resolves, rejects, deadline, unrelated,
  stays_open, Work, throws, returns, promises, DrainWatch, arm, timer_of, race, settle_module,
}

module _ {T : Type 0} where
  -- an event after which the loop goes on
  abbrev pub IsPassing : Event T → Type 0
  IsPassing stays_open = ⊥
  IsPassing _ = Unit {0}

  race-timed :
      (ms : ℕ) (w : DrainWatch) (es : List (Event T))
      → w.wake ≡ true
      → (o : Outcome T) × (race (some ms) w es ≡ some o)
  unfolding race
  race-timed ms w [] h = (drained, ground arith)
  race-timed ms w (resolves v ∷ es) h = (settled v, refl)
  race-timed ms w (rejects e ∷ es) h = (threw e, refl)
  race-timed ms w (deadline ∷ es) h = (timeout ms, refl)
  race-timed ms w (unrelated ∷ es) h = race-timed ms w es h
  race-timed ms w (stays_open ∷ es) h = (timeout ms, refl)

  race-passing :
      (timer : Option ℕ) (w : DrainWatch) (es : List (Event T))
      → w.wake ≡ true
      → All IsPassing es
      → (o : Outcome T) × (race timer w es ≡ some o)
  unfolding race
  race-passing timer w [] h p = (drained, ground arith)
  race-passing timer w (resolves v ∷ es) h p = (settled v, refl)
  race-passing timer w (rejects e ∷ es) h p = (threw e, refl)
  race-passing none w (deadline ∷ es) h p = race-passing none w es h p.1
  race-passing (some ms) w (deadline ∷ es) h p = (timeout ms, refl)
  race-passing timer w (unrelated ∷ es) h p = race-passing timer w es h p.1
  race-passing timer w (stays_open ∷ es) h p = absurd p.0

  -- the module has a positive `timeoutMs`, or leaves no handle open for ever
  abbrev pub CanEnd : Option ℕ → Work T → Type 0
  CanEnd timeout_ms (throws e) = Unit {0}
  CanEnd timeout_ms (returns v) = Unit {0}
  CanEnd timeout_ms (promises es) = ((ms : ℕ) × (timer_of timeout_ms ≡ some ms)) ⊎ All IsPassing es

  -- what a run leaves of a watch that was not armed
  pub settle_module-watch :
      (work : Work T) (watch : DrainWatch) (timeout_ms : Option ℕ)
      → watch.wake ≡ false
      → (settle_module work watch timeout_ms).1 ≡ watch
  unfolding settle_module
  settle_module-watch (throws e) watch timeout_ms h = refl
  settle_module-watch (returns v) watch timeout_ms h = ground arith
  settle_module-watch (promises es) watch timeout_ms h = ground arith

  -- A module that throws, returns, or leaves a promise has an outcome, if it has a positive
  -- `timeoutMs` or leaves no handle open for ever.
  pub settle_module-total :
      (work : Work T) (watch : DrainWatch) (timeout_ms : Option ℕ)
      → CanEnd timeout_ms work
      → (o : Outcome T) × ((settle_module work watch timeout_ms).0 ≡ some o)
  unfolding settle_module
  settle_module-total (throws e) watch timeout_ms c = (threw e, refl)
  settle_module-total (returns v) watch timeout_ms c = (settled v, refl)
  settle_module-total (promises es) watch timeout_ms (inl (ms, timed)) =
      rw timed (race-timed ms (arm watch) es refl)
  settle_module-total (promises es) watch timeout_ms (inr passing) =
      race-passing (timer_of timeout_ms) (arm watch) es refl passing

  -- an event that leaves the race open under this timer
  abbrev pub IsQuiet : Option ℕ → Event T → Type 0
  IsQuiet timer (resolves v) = ⊥
  IsQuiet timer (rejects e) = ⊥
  IsQuiet timer deadline = timer ≡ none
  IsQuiet timer unrelated = Unit {0}
  IsQuiet timer stays_open = ⊥

  -- an event at which a timer that is set ends the race: its own, or that nothing else can
  abbrev pub IsDue : Event T → Type 0
  IsDue deadline = Unit {0}
  IsDue stays_open = Unit {0}
  IsDue _ = ⊥

  -- The events that decide the race: those of the outcome, after quiet ones only.
  abbrev pub Decides : Option ℕ → List (Event T) → Outcome T → Type 0
  Decides timer es (settled v) =
      (quiet rest : List (Event T)) × (es ≡ quiet ++ resolves v ∷ rest) × All (IsQuiet timer) quiet
  Decides timer es (threw e) =
      (quiet rest : List (Event T)) × (es ≡ quiet ++ rejects e ∷ rest) × All (IsQuiet timer) quiet
  Decides timer es drained = All (IsQuiet timer) es
  Decides timer es (timeout ms) =
      (quiet rest : List (Event T)) × (due : Event T) × (es ≡ quiet ++ due ∷ rest)
      × All (IsQuiet timer) quiet
      × IsDue due
      × (timer ≡ some ms)
