-- ===== src/Component/Pending.antt =====
-- rc/control/component.py and rc/control/daqinterface.py: a request to DAQInterface enters its
-- transition state and sets the flag of its transition for the runner.
use artdaq_daqinterface.Prelude.{String, ◌≡◌, some, eq_refl}
use artdaq_daqinterface.Component.{
  Component, Hook, start_running, stop_running, pause_running, boot, shutdown, config,
  resume_running, terminate, enable, disable, recover, accepted, state_change, raise_flag,
  daqinterface_hook,
}
use artdaq_daqinterface.Component.Moves.{
  Request, booting, shutting, stopping, configuring, starting, pausing, resuming, terminating,
  recovering, enabling, disabling, request_text, Settled, stopped, booted, ready, running, paused,
  settled_text, target, keeps_params,
}

abbrev pub hook_of : Request → Hook
hook_of booting = boot
hook_of shutting = shutdown
hook_of stopping = stop_running
hook_of configuring = config
hook_of starting = start_running
hook_of pausing = pause_running
hook_of resuming = resume_running
hook_of terminating = terminate
hook_of recovering = recover
hook_of enabling = enable
hook_of disabling = disable

-- Requests to enable and to disable leave the state.
abbrev pub entered_text : Request → Settled → String
entered_text enabling s = settled_text s
entered_text disabling s = settled_text s
entered_text r s = request_text r

module _ {A : Type 0} (c : Component A) where
  abbrev pub pending : Request → Settled → A → Component A
  pending r s args = record c {
    state = entered_text r s;
    run_params = keeps_params r args c.run_params;
    flags = raise_flag (hook_of r) c.flags;
  }

  -- A request that the diagram allows is accepted: the state is that of the transition, arguments
  -- are kept where the transition has some, and of the flags exactly that of the transition is set.
  pub state_change_pends :
      (r : Request) (s t : Settled) (args : A)
      → target r s ≡ some t
      → state_change daqinterface_hook c.name
          (request_text r)
          args
          (record c { state = settled_text s })
        ≡ (pending r s args, accepted)
  unfolding state_change daqinterface_hook
  state_change_pends booting stopped t args h = rw eq_refl
  state_change_pends booting _ t args h = cc
  state_change_pends shutting ready t args h = rw eq_refl
  state_change_pends shutting _ t args h = cc
  state_change_pends stopping running t args h = rw eq_refl
  state_change_pends stopping _ t args h = cc
  state_change_pends configuring booted t args h = rw eq_refl
  state_change_pends configuring _ t args h = cc
  state_change_pends starting ready t args h = rw eq_refl
  state_change_pends starting _ t args h = cc
  state_change_pends pausing running t args h = rw eq_refl
  state_change_pends pausing _ t args h = cc
  state_change_pends resuming paused t args h = rw eq_refl
  state_change_pends resuming _ t args h = cc
  state_change_pends terminating booted t args h = rw eq_refl
  state_change_pends terminating ready t args h = rw eq_refl
  state_change_pends terminating _ t args h = cc
  state_change_pends recovering s t args h = rw eq_refl
  state_change_pends enabling s t args h = rw eq_refl
  state_change_pends disabling s t args h = rw eq_refl
