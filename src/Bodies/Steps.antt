-- ===== src/Bodies/Steps.antt =====
-- rc/control/daqinterface.py: a property of the bodies from one of each of their statements.
use artdaq_daqinterface.Prelude.{List, [], ◌∷◌, ◌++◌}
use artdaq_daqinterface.Bodies.{
  Daqinterface, Endless, Progress, goes_on, returned, raised_out, endless, ◌then_step◌, run_steps,
}

module _ {A : Type 0} (Open Settled Left : Daqinterface A → Type 0) (Stuck : Endless → Type 0) where
  -- What holds where the body goes on, where it has returned, where an exception has left
  -- it, and of the loop that does not end.
  abbrev pub Meets : Progress A → Type 0
  Meets (goes_on d) = Open d
  Meets (returned d) = Settled d
  Meets (raised_out d) = Left d
  Meets (endless loop) = Stuck loop

  -- Each of the statements keeps to this.
  infixr 4 ◌next_step◌
  pub data AllMeet : List (Daqinterface A → Progress A) → Type 0 where
    all_steps : AllMeet []
    ◌next_step◌ :
        {step : Daqinterface A → Progress A} {steps : List (Daqinterface A → Progress A)}
        → ((d : Daqinterface A) → Open d → Meets (step d))
        → AllMeet steps
        → AllMeet (step ∷ steps)

  Meets-then :
      (first : Progress A) (next : Daqinterface A → Progress A)
      → Meets first
      → ((d : Daqinterface A) → Open d → Meets (next d))
      → Meets (first then_step next)
  Meets-then (goes_on d) next here later = later d here
  Meets-then (returned d) next here later = here
  Meets-then (raised_out d) next here later = here
  Meets-then (endless loop) next here later = here

  pub run_steps-Meets :
      (steps : List (Daqinterface A → Progress A)) (d : Daqinterface A)
      → AllMeet steps
      → Open d
      → Meets (run_steps steps d)
  unfolding run_steps
  run_steps-Meets [] d all_steps h = h
  run_steps-Meets (step ∷ steps) d (here next_step all) h =
      Meets-then (step d) (λ d'. run_steps steps d') (here d h)
        (λ d' h'. run_steps-Meets steps d' all h')

module _ {A : Type 0} where
  -- The body does not go on.
  abbrev pub IsOver : Progress A → Type 0
  IsOver (goes_on d) = ⊥
  IsOver _ = Unit

  IsOver-then :
      (first : Progress A) (next : Daqinterface A → Progress A)
      → ((d : Daqinterface A) → IsOver (next d))
      → IsOver (first then_step next)
  IsOver-then (goes_on d) next over = over d
  IsOver-then (returned d) next over = tt
  IsOver-then (raised_out d) next over = tt
  IsOver-then (endless loop) next over = tt

  alone-IsOver : (p : Progress A) → IsOver p → IsOver (p then_step λ d. goes_on d)
  alone-IsOver (goes_on d) h = absurd h
  alone-IsOver (returned d) h = tt
  alone-IsOver (raised_out d) h = tt
  alone-IsOver (endless loop) h = tt

  -- The last statement decides that the body is over.
  pub run_steps-IsOver :
      (steps : List (Daqinterface A → Progress A)) (last : Daqinterface A → Progress A)
      (d : Daqinterface A)
      → ((d' : Daqinterface A) → IsOver (last d'))
      → IsOver (run_steps (steps ++ last ∷ []) d)
  unfolding run_steps
  run_steps-IsOver [] last d over = alone-IsOver (last d) (over d)
  run_steps-IsOver (step ∷ steps) last d over =
      IsOver-then (step d) (λ d'. run_steps (steps ++ last ∷ []) d')
        (λ d'. run_steps-IsOver steps last d' over)
