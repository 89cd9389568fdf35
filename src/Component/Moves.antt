-- ===== src/Component/Moves.antt =====
-- rc/control/component.py: what `state_change` does with each request in each settled state.
use artdaq_daqinterface.Prelude.{String, ◌≡◌, Option, none, some, List, [], ◌∷◌, eq_refl}
use artdaq_daqinterface.Component.{
  Component, Response, refused, accepted, state_change, component_hook,
}

-- The requests of run control.
pub data Request : Type 0 where
  booting shutting stopping configuring starting pausing resuming terminating recovering enabling
        disabling :
      Request

abbrev pub request_text : Request → String
request_text booting = "booting"
request_text shutting = "shutting"
request_text stopping = "stopping"
request_text configuring = "configuring"
request_text starting = "starting"
request_text pausing = "pausing"
request_text resuming = "resuming"
request_text terminating = "terminating"
request_text recovering = "recovering"
request_text enabling = "enabling"
request_text disabling = "disabling"

-- The states between transitions.
pub data Settled : Type 0 where
  stopped booted ready running paused : Settled

abbrev pub settled_text : Settled → String
settled_text stopped = "stopped"
settled_text booted = "booted"
settled_text ready = "ready"
settled_text running = "running"
settled_text paused = "paused"

-- The state machine's diagram.
abbrev pub target : Request → Settled → Option Settled
target booting stopped = some booted
target configuring booted = some ready
target terminating booted = some stopped
target terminating ready = some stopped
target shutting ready = some booted
target starting ready = some running
target stopping running = some ready
target pausing running = some paused
target resuming paused = some running
target recovering s = some stopped
target enabling s = some s
target disabling s = some s
target _ _ = none

-- Which requests come with arguments that are kept.
abbrev pub keeps_params : {A : Type 0} → Request → A → Option A → Option A
keeps_params booting args old = some args
keeps_params configuring args old = some args
keeps_params starting args old = some args
keeps_params _ args old = old

-- The requests that a warning lists, in the words of the commands.
abbrev pub commands_from : Settled → List String
commands_from stopped = "boot" ∷ []
commands_from booted = "config" ∷ "terminate" ∷ []
commands_from ready = "shutdown" ∷ "start" ∷ "terminate" ∷ []
commands_from running = "stop" ∷ "pause" ∷ []
commands_from paused = "resume" ∷ []

module _ {A : Type 0} (c : Component A) where
  -- The component after an accepted request, or the component and the warning.
  abbrev pub outcome : Request → Settled → A → Option Settled → Component A × Response
  outcome r s args (some t) =
      (record c { state = settled_text t; run_params = keeps_params r args c.run_params }, accepted)
  outcome r s args none = (record c { state = settled_text s }, refused (commands_from s))

  -- A request follows the diagram where it can, and is refused with a list of what is possible
  -- where it cannot; a refusal changes nothing.
  pub state_change_follows :
      (r : Request) (s : Settled) (args : A)
      → state_change component_hook c.name
          (request_text r)
          args
          (record c { state = settled_text s })
        ≡ outcome r s args (target r s)
  unfolding state_change component_hook
  state_change_follows booting stopped args = rw eq_refl
  state_change_follows booting _ args = rw eq_refl
  state_change_follows shutting stopped args = rw eq_refl
  state_change_follows shutting _ args = rw eq_refl
  state_change_follows stopping stopped args = rw eq_refl
  state_change_follows stopping _ args = rw eq_refl
  state_change_follows configuring stopped args = rw eq_refl
  state_change_follows configuring _ args = rw eq_refl
  state_change_follows starting stopped args = rw eq_refl
  state_change_follows starting _ args = rw eq_refl
  state_change_follows pausing stopped args = rw eq_refl
  state_change_follows pausing _ args = rw eq_refl
  state_change_follows resuming stopped args = rw eq_refl
  state_change_follows resuming _ args = rw eq_refl
  state_change_follows terminating stopped args = rw eq_refl
  state_change_follows terminating _ args = rw eq_refl
  state_change_follows recovering s args = rw eq_refl
  state_change_follows enabling s args = rw eq_refl
  state_change_follows disabling s args = rw eq_refl
