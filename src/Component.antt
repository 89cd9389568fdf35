-- ===== src/Component.antt =====
-- rc/control/component.py, the class `Component`: the state machine that run control talks to, and
-- the overridden transition functions of rc/control/daqinterface.py.
pub mod Moves
pub mod Revert
pub mod Pending
pub mod Walks
mod Tests
use artdaq_daqinterface.Prelude.{
  String, ◌=ₛ◌, Bool, true, false, not, Option, none, some, List, [], ◌∷◌, Dict, lookup, occurs,
  if◌then◌else◌,
}

-- The flags that DAQInterface's transition functions set for its runner.
pub record Flags : Type 0 where
  pub do_boot : Bool
  pub do_shutdown : Bool
  pub do_config : Bool
  pub do_recover : Bool
  pub do_start_running : Bool
  pub do_stop_running : Bool
  pub do_terminate : Bool
  pub do_pause_running : Bool
  pub do_resume_running : Bool
  pub do_enable : Bool
  pub do_disable : Bool
  pub do_trace_get : Bool
  pub do_trace_set : Bool

-- `A` is the type of the arguments that come with a request.
pub record Component (A : Type 0) : Type 0 where
  pub name : String
  pub state : String
  pub run_params : Option A
  pub flags : Flags

abbrev pub dict_state_to : Dict String
dict_state_to =
    ("booting", "booted")
    ∷ ("shutting", "booted")
    ∷ ("stopping", "ready")
    ∷ ("configuring", "ready")
    ∷ ("starting", "running")
    ∷ ("pausing", "paused")
    ∷ ("resuming", "running")
    ∷ ("terminating", "stopped")
    ∷ ("recovering", "stopped")
    ∷ []

abbrev pub dict_state_from : Dict String
dict_state_from =
    ("booting", "stopped")
    ∷ ("shutting", "ready")
    ∷ ("stopping", "running")
    ∷ ("configuring", "booted")
    ∷ ("starting", "ready")
    ∷ ("pausing", "running")
    ∷ ("resuming", "paused")
    ∷ ("terminating", "ready|booted")
    ∷ []

abbrev pub dict_correct_grammar : Dict String
dict_correct_grammar =
    ("booting", "boot")
    ∷ ("shutting", "shutdown")
    ∷ ("stopping", "stop")
    ∷ ("configuring", "config")
    ∷ ("starting", "start")
    ∷ ("pausing", "pause")
    ∷ ("resuming", "resume")
    ∷ ("terminating", "terminate")
    ∷ []

-- `m.get(k, k)`
unfoldable pub get_or_self : Dict String → String → String
unfolding lookup
get_or_self m k = elim (lookup k m) [ some v ↦ v | none ↦ k ]

-- What a request is answered with. `zero_allowed` is the failed assertion "Zero allowed transitions";
-- `refused` has the requests that the warning lists.
pub data Response : Type 0 where
  other_name : Response
  refused : List String → Response
  zero_allowed : Response
  accepted : Response

-- `state in val` is a search for a piece of text, as the values may join states by `|`.
unfoldable pub allowed_transitions : String → Dict String → List String
unfolding get_or_self
allowed_transitions state [] = []
allowed_transitions state (entry ∷ rest) =
    let more = allowed_transitions state rest in
    if occurs state entry.1 then get_or_self dict_correct_grammar entry.0 ∷ more else more

unfoldable pub answer : List String → Response
answer [] = zero_allowed
answer (t ∷ ts) = refused (t ∷ ts)

-- `requested in dict_state_from.keys() and state not in dict_state_from[requested]`
unfoldable pub is_refused : String → String → Bool
unfolding lookup
is_refused requested state = elim (lookup requested dict_state_from) [
  | none ↦ false
  | some from ↦ not (occurs state from)
]

-- The transition functions that a class overrides.
pub data Hook : Type 0 where
  start_running stop_running pause_running boot shutdown config resume_running terminate enable
        disable recover :
      Hook

module _ {A : Type 0} where
  unfoldable pub state : String → Component A → String
  state name c = if name =ₛ c.name then c.state else "unknown"

  unfoldable pub complete_state_change : String → String → Component A → Component A
  unfolding get_or_self
  complete_state_change name requested c =
      if name =ₛ c.name then record c { state = get_or_self dict_state_to requested } else c

  unfoldable pub revert_state_change : String → String → Component A → Component A
  unfolding get_or_self
  revert_state_change name requested c =
      if name =ₛ c.name then record c { state = get_or_self dict_state_from requested } else c

  unfoldable pub trace_get : String → A → Component A → Component A
  trace_get name args c =
      if name =ₛ c.name
      then record c { run_params = some args; flags = record (c.flags) { do_trace_get = true } }
      else c

  unfoldable pub trace_set : String → A → Component A → Component A
  trace_set name args c =
      if name =ₛ c.name
      then record c { run_params = some args; flags = record (c.flags) { do_trace_set = true } }
      else c

  unfoldable pub set_transition_state : String → Component A → Component A
  set_transition_state requested c =
      if requested =ₛ "enabling"
      then c
      else (if requested =ₛ "disabling" then c else record c { state = requested })

  abbrev pub set_params : A → Component A → Component A
  set_params args c = record c { run_params = some args }

  -- The tests on `requested`, which exclude one another.
  unfoldable pub run_hook :
      (Hook → Component A → Component A) → String → A → Component A → Component A
  run_hook hook requested args c =
      if requested =ₛ "starting"
      then hook start_running (set_params args c)
      else (if requested =ₛ "stopping"
          then hook stop_running c
          else (if requested =ₛ "pausing"
              then hook pause_running c
              else (if requested =ₛ "booting"
                  then hook boot (set_params args c)
                  else (if requested =ₛ "shutting"
                      then hook shutdown c
                      else (if requested =ₛ "configuring"
                          then hook config (set_params args c)
                          else (if requested =ₛ "resuming"
                              then hook resume_running c
                              else (if requested =ₛ "terminating"
                                  then hook terminate c
                                  else (if requested =ₛ "enabling"
                                      then hook enable c
                                      else (if requested =ₛ "disabling"
                                          then hook disable c
                                          else (if requested =ₛ "recovering"
                                              then hook recover c
                                              else c))))))))))

  unfoldable pub state_change :
      (Hook → Component A → Component A)
      → String
      → String
      → A
      → Component A
      → Component A × Response
  unfolding allowed_transitions answer is_refused set_transition_state run_hook
  state_change hook name requested args c =
      if name =ₛ c.name
      then (if is_refused requested c.state
          then (c, answer (allowed_transitions c.state dict_state_from))
          else (run_hook hook requested args (set_transition_state requested c), accepted))
      else (c, other_name)

  -- The transition functions of `Component` itself: they complete the change at once.
  unfoldable pub component_hook : Hook → Component A → Component A
  unfolding complete_state_change
  component_hook boot c = complete_state_change c.name "booting" c
  component_hook shutdown c = complete_state_change c.name "shutting" c
  component_hook config c = complete_state_change c.name "configuring" c
  component_hook start_running c = complete_state_change c.name "starting" c
  component_hook stop_running c = complete_state_change c.name "stopping" c
  component_hook pause_running c = complete_state_change c.name "pausing" c
  component_hook resume_running c = complete_state_change c.name "resuming" c
  component_hook terminate c = complete_state_change c.name "terminating" c
  component_hook recover c = complete_state_change c.name "recovering" c
  component_hook enable c = c
  component_hook disable c = c

-- The transition functions of `DAQInterface`: they set a flag for the runner.
unfoldable pub raise_flag : Hook → Flags → Flags
raise_flag boot f = record f { do_boot = true }
raise_flag shutdown f = record f { do_shutdown = true }
raise_flag config f = record f { do_config = true }
raise_flag recover f = record f { do_recover = true }
raise_flag start_running f = record f { do_start_running = true }
raise_flag stop_running f = record f { do_stop_running = true }
raise_flag terminate f = record f { do_terminate = true }
raise_flag pause_running f = record f { do_pause_running = true }
raise_flag resume_running f = record f { do_resume_running = true }
raise_flag enable f = record f { do_enable = true }
raise_flag disable f = record f { do_disable = true }

unfoldable pub daqinterface_hook : {A : Type 0} → Hook → Component A → Component A
unfolding raise_flag
daqinterface_hook hook c = record c { flags = raise_flag hook c.flags }
