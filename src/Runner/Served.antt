-- ===== src/Runner/Served.antt =====
-- rc/control/daqinterface.py, `runner`: the requests are served, each once, in the order of the tests.
use artdaq_daqinterface.Prelude.{
  ℕ, zero, suc, ◌≡◌, refl, sym, ap, ◌∙◌, ◌⊎◌, inl, inr, Bool, true, false, List, [], ◌∷◌, ◌++◌, map,
  length,
}
use artdaq_daqinterface.Component.{Flags}
use artdaq_daqinterface.Runner.{
  Action, Round, serve, Runner, choose, next_round, when_no_flag, attempt, after_attempt, runner,
}
use artdaq_daqinterface.Runner.Chosen.{asked_for, choose_first}

-- Rounds that call what comes back without an exception and sets neither a flag nor the exception
-- flag: it leaves the flags as they are, or clears them all, as a recovery does.
pub record IsCalm {S : Type 0} (call : Round → Runner S → Runner S × Bool) : Type 0 where
  pub returns : (round : Round) (r : Runner S) → (call round r).1 ≡ false
  pub flags_after :
      (round : Round) (r : Runner S)
      → ((call round r).0.flags ≡ r.flags) ⊎ (asked_for (call round r).0.flags ≡ [])
  pub sets_no_exception :
      (round : Round) (r : Runner S) → r.exception ≡ false → (call round r).0.exception ≡ false

module _ {S : Type 0} (call : Round → Runner S → Runner S × Bool)
    (alert_and_recover : Runner S → Runner S × Bool) where
  -- After so many rounds.
  abbrev pub rounds : ℕ → Runner S → Runner S
  rounds zero r = r
  rounds (suc n) r = rounds n (runner call alert_and_recover r).0

  -- What these rounds do.
  abbrev pub history : ℕ → Runner S → List Round
  history zero r = []
  history (suc n) r = (next_round r).0 ∷ history n (runner call alert_and_recover r).0

  -- The requests of a runner are served in their order up to one whose call drops those behind it, if
  -- there is such a call, and then no flag is set.
  pub record IsServedOut (r : Runner S) (requests : List Action) : Type 0 where
    pub served : List Action
    pub dropped : List Action
    pub all_requests : requests ≡ served ++ dropped
    pub in_order : history (length served) r ≡ map serve served
    pub none_left : asked_for (rounds (length served) r).flags ≡ []
    pub cause :
        (dropped ≡ [])
        ⊎ ((k : ℕ) × (length served ≡ suc k) × (asked_for (next_round (rounds k r)).1 ≡ dropped))

  -- A round that serves a flag leaves the flags as the chain of tests does, or none.
  record IsServing (r : Runner S) (action : Action) (left : Flags) : Type 0 where
    round : next_round r ≡ (serve action, left)
    flags_after :
        ((runner call alert_and_recover r).0.flags ≡ left)
        ⊎ (asked_for (runner call alert_and_recover r).0.flags ≡ [])
    calm_after : (runner call alert_and_recover r).0.exception ≡ false

  after_calm :
      (x : Runner S × Bool) → x.1 ≡ false → (after_attempt call alert_and_recover x).0 ≡ x.0
  unfolding after_attempt
  after_calm (r, true) h = cc
  after_calm (r, false) h = refl

  module _ (calm : IsCalm call) where
    runner_round :
        (r : Runner S) (action : Action) (left : Flags)
        → next_round r ≡ (serve action, left)
        → (runner call alert_and_recover r).0 ≡ (call (serve action) (record r { flags = left })).0
    unfolding runner attempt
    runner_round r action left e = rw e (
        after_calm (call (serve action) (record r { flags = left }))
          (calm.returns (serve action) (record r { flags = left })))

    runner-IsServing :
        (r : Runner S) (action : Action) (left : Flags)
        → r.exception ≡ false
        → choose r.flags (when_no_flag r) ≡ (serve action, left)
        → IsServing r action left
    runner-IsServing r action left fine e =
        let chosen = next r fine e in
        let after = runner_round r action left chosen in
        let before = record r { flags = left } in
        record {
          round = chosen;
          flags_after = elim (calm.flags_after (serve action) before) [
            | inl kept ↦ inl (ap (λ x. x.flags) after ∙ kept)
            | inr cleared ↦ inr (ap (λ x. asked_for x.flags) after ∙ cleared)
          ];
          calm_after =
              ap (λ x. x.exception) after ∙ calm.sets_no_exception (serve action) before fine;
        }
      where
        next :
            (r : Runner S)
            → r.exception ≡ false
            → choose r.flags (when_no_flag r) ≡ (serve action, left)
            → next_round r ≡ (serve action, left)
        next r fine e = unfold next_round in simp fine e

    serves :
        (l : List Action) (r : Runner S)
        → r.exception ≡ false
        → asked_for r.flags ≡ l
        → IsServedOut r l
    serves [] r fine e = record {
      served = [];
      dropped = [];
      all_requests = refl;
      in_order = refl;
      none_left = e;
      cause = inl refl;
    }
    serves (a ∷ l) r fine e = elim (choose_first r.flags (when_no_flag r)) [
      | inl (falls, nothing) ↦ absurd (cc)
      | inr first ↦
          let s = runner-IsServing r first.action first.left fine first.chosen in
          let same : first.action ∷ asked_for first.left ≡ a ∷ l = sym first.in_order ∙ e in
          let now : first.action ≡ a = cc in
          let later : asked_for first.left ≡ l = cc in
          let round_now : (next_round r).0 ≡ serve a = ap (λ x. x.0) s.round ∙ ap serve now in
          elim s.flags_after [
            | inl kept ↦
                let rest =
                  serves l (runner call alert_and_recover r).0 s.calm_after
                    (ap asked_for kept ∙ later) in
                record {
                  served = a ∷ rest.served;
                  dropped = rest.dropped;
                  all_requests = ap (λ x. a ∷ x) rest.all_requests;
                  in_order = ap2 round_now rest.in_order;
                  none_left = rest.none_left;
                  cause = elim rest.cause [
                    | inl none ↦ inl none
                    | inr (k, last, left) ↦ inr (suc k, ap suc last, left)
                  ];
                }
            | inr cleared ↦ record {
              served = a ∷ [];
              dropped = l;
              all_requests = refl;
              in_order = ap2 round_now refl;
              none_left = cleared;
              cause = inr (0, refl, ap (λ x. asked_for x.1) s.round ∙ later);
            }
          ]
    ]
      where
        ap2 : {a b : Round} {l m : List Round} → a ≡ b → l ≡ m → a ∷ l ≡ b ∷ m
        ap2 e f = rw (e, f)

    -- Without an exception, and where what is called raises none, sets no flag, and leaves the flags
    -- or clears them all, as a recovery does: the rounds serve the requests that the flags stand for,
    -- each once and in the order of the tests, until no flag is set. Requests are dropped only where
    -- the last call found their flags set and cleared them.
    pub runner_serves : (r : Runner S) → r.exception ≡ false → IsServedOut r (asked_for r.flags)
    runner_serves r fine = serves (asked_for r.flags) r fine refl
