-- ===== src/Component/Revert.antt =====
-- rc/control/component.py: going back with `revert_state_change` after a failed transition, and
-- requests that come while a transition is under way.
use artdaq_daqinterface.Prelude.{
  String, ◌=ₛ◌ as ◌==◌, ◌≡◌, ◌≢◌, refl, sym, ap, ◌∙◌, true, false, some, eq_refl, has,
}
use artdaq_daqinterface.Component.{
  Component, Response, zero_allowed, dict_state_from, state_change, revert_state_change,
  daqinterface_hook, get_or_self,
}
use artdaq_daqinterface.Component.Moves.{
  Request, booting, shutting, stopping, configuring, starting, pausing, resuming, terminating,
  recovering, enabling, disabling, request_text, Settled, settled_text, target, stopped, booted,
  ready, running, paused,
}
use artdaq_daqinterface.Component.Pending.{entered_text, state_change_pends}

-- The requests that DAQInterface answers by a transition of its own that can be reverted.
pub data Revertible : Type 0 where
  boot shutdown stop config start pause resume : Revertible

abbrev pub as_request : Revertible → Request
as_request boot = booting
as_request shutdown = shutting
as_request stop = stopping
as_request config = configuring
as_request start = starting
as_request pause = pausing
as_request resume = resuming

pub differs : (s t : String) → (s == t) ≡ false → s ≢ t
differs s t f e = cc (rw (← e, eq_refl s) at f)

no_state : (u : Settled) → ◌≢◌ {A = String} "ready|booted" (settled_text u)
no_state stopped = differs "ready|booted" "stopped" refl
no_state booted = differs "ready|booted" "booted" refl
no_state ready = differs "ready|booted" "ready" refl
no_state running = differs "ready|booted" "running" refl
no_state paused = differs "ready|booted" "paused" refl

from_terminating : get_or_self dict_state_from "terminating" ≡ "ready|booted"
unfolding get_or_self
from_terminating = refl

module _ {A : Type 0} (c : Component A) where
  abbrev pub asked : Request → Settled → A → Component A
  asked r s args =
      (state_change daqinterface_hook c.name (request_text r) args
        (record c { state = settled_text s })).0

  revert-pending :
      (r : Request) (s t : Settled) (args : A)
      → target r s ≡ some t
      → (revert_state_change c.name (asked r s args).state (asked r s args)).state
        ≡ get_or_self dict_state_from (entered_text r s)
  unfolding revert_state_change
  revert-pending r s t args h =
      ap (λ (x : Component A × Response). (revert_state_change c.name x.0.state x.0).state)
        (state_change_pends c r s t args h)
      ∙ rw (eq_refl c.name) refl

  -- Reverting a request to terminate sets the text "ready|booted", which is no state.
  pub revert-terminating :
      (s t : Settled) (args : A)
      → target terminating s ≡ some t
      → (u : Settled)
      → (revert_state_change c.name
          (asked terminating s args).state
          (asked terminating s args)).state
        ≢ settled_text u
  revert-terminating s t args h u e =
      no_state u (sym from_terminating ∙ sym (revert-pending terminating s t args h) ∙ e)

  -- While a transition is under way, every request of the table but to recover meets the assertion
  -- "Zero allowed transitions", and changes nothing.
  pub request_under_way :
      (v : Revertible) (r : Request) (args : A)
      → has (request_text r) dict_state_from ≡ true
      → state_change daqinterface_hook c.name
          (request_text r)
          args
          (record c { state = request_text (as_request v) })
        ≡ (record c { state = request_text (as_request v) }, zero_allowed)
  unfolding state_change has
  request_under_way boot booting args h = rw eq_refl
  request_under_way v recovering args h = cc
  request_under_way v enabling args h = cc
  request_under_way v disabling args h = cc
  request_under_way _ _ args h = rw eq_refl
