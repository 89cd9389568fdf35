-- ===== src/Runner/Chosen.antt =====
-- rc/control/daqinterface.py, `runner`: which request the chain of tests on the flags serves.
use artdaq_daqinterface.Prelude.{
  ◌≡◌, refl, ◌⊎◌, inl, inr, Bool, false, List, [], ◌∷◌, Bool-cases, if◌then◌else◌,
}
use artdaq_daqinterface.Component.{Flags}
use artdaq_daqinterface.Runner.{
  Action, do_boot, do_config, do_recover, do_start_running, do_stop_running, do_terminate,
  do_enable, do_disable, do_trace_get, do_trace_set, do_command, Round, serve, choose,
}

abbrev when : Bool → Action → List Action → List Action
when b a rest = if b then a ∷ rest else rest

-- What the flags ask for, in the order of the tests.
abbrev pub asked_for : Flags → List Action
asked_for f = when f.do_boot do_boot (
    when f.do_shutdown (do_command "Shutdown") (
      when f.do_config do_config (
        when f.do_recover do_recover (
          when f.do_start_running do_start_running (
            when f.do_stop_running do_stop_running (
              when f.do_terminate do_terminate (
                when f.do_pause_running (do_command "Pause") (
                  when f.do_resume_running (do_command "Resume") (
                    when f.do_enable do_enable (
                      when f.do_disable do_disable (
                        when f.do_trace_get do_trace_get
                          (when f.do_trace_set do_trace_set []))))))))))))

-- Either nothing is asked for and the chain falls through, or the first request is served.
pub record FirstServed (f : Flags) (otherwise : Round) : Type 0 where
  pub action : Action
  pub left : Flags
  pub chosen : choose f otherwise ≡ (serve action, left)
  pub in_order : asked_for f ≡ action ∷ asked_for left

pub choose_first :
    (f : Flags) (otherwise : Round)
    → ((choose f otherwise ≡ (otherwise, f)) × (asked_for f ≡ [])) ⊎ FirstServed f otherwise
unfolding choose
choose_first f otherwise = elim (Bool-cases f.do_boot) [
  | inl e0 ↦ inr (record {
    action = do_boot;
    left = record f { do_boot = false };
    chosen = rw e0 refl;
    in_order = rw e0 refl;
  })
  | inr e0 ↦ elim (Bool-cases f.do_shutdown) [
    | inl e1 ↦ inr (record {
      action = do_command "Shutdown";
      left = record f { do_shutdown = false };
      chosen = rw (e0, e1) refl;
      in_order = rw (e0, e1) refl;
    })
    | inr e1 ↦ elim (Bool-cases f.do_config) [
      | inl e2 ↦ inr (record {
        action = do_config;
        left = record f { do_config = false };
        chosen = rw (e0, e1, e2) refl;
        in_order = rw (e0, e1, e2) refl;
      })
      | inr e2 ↦ elim (Bool-cases f.do_recover) [
        | inl e3 ↦ inr (record {
          action = do_recover;
          left = record f { do_recover = false };
          chosen = rw (e0, e1, e2, e3) refl;
          in_order = rw (e0, e1, e2, e3) refl;
        })
        | inr e3 ↦ elim (Bool-cases f.do_start_running) [
          | inl e4 ↦ inr (record {
            action = do_start_running;
            left = record f { do_start_running = false };
            chosen = rw (e0, e1, e2, e3, e4) refl;
            in_order = rw (e0, e1, e2, e3, e4) refl;
          })
          | inr e4 ↦ elim (Bool-cases f.do_stop_running) [
            | inl e5 ↦ inr (record {
              action = do_stop_running;
              left = record f { do_stop_running = false };
              chosen = rw (e0, e1, e2, e3, e4, e5) refl;
              in_order = rw (e0, e1, e2, e3, e4, e5) refl;
            })
            | inr e5 ↦ elim (Bool-cases f.do_terminate) [
              | inl e6 ↦ inr (record {
                action = do_terminate;
                left = record f { do_terminate = false };
                chosen = rw (e0, e1, e2, e3, e4, e5, e6) refl;
                in_order = rw (e0, e1, e2, e3, e4, e5, e6) refl;
              })
              | inr e6 ↦ elim (Bool-cases f.do_pause_running) [
                | inl e7 ↦ inr (record {
                  action = do_command "Pause";
                  left = record f { do_pause_running = false };
                  chosen = rw (e0, e1, e2, e3, e4, e5, e6, e7) refl;
                  in_order = rw (e0, e1, e2, e3, e4, e5, e6, e7) refl;
                })
                | inr e7 ↦ elim (Bool-cases f.do_resume_running) [
                  | inl e8 ↦ inr (record {
                    action = do_command "Resume";
                    left = record f { do_resume_running = false };
                    chosen = rw (e0, e1, e2, e3, e4, e5, e6, e7, e8) refl;
                    in_order = rw (e0, e1, e2, e3, e4, e5, e6, e7, e8) refl;
                  })
                  | inr e8 ↦ elim (Bool-cases f.do_enable) [
                    | inl e9 ↦ inr (record {
                      action = do_enable;
                      left = record f { do_enable = false };
                      chosen = rw (e0, e1, e2, e3, e4, e5, e6, e7, e8, e9) refl;
                      in_order = rw (e0, e1, e2, e3, e4, e5, e6, e7, e8, e9) refl;
                    })
                    | inr e9 ↦ elim (Bool-cases f.do_disable) [
                      | inl e10 ↦ inr (record {
                        action = do_disable;
                        left = record f { do_disable = false };
                        chosen = rw (e0, e1, e2, e3, e4, e5, e6, e7, e8, e9, e10) refl;
                        in_order = rw (e0, e1, e2, e3, e4, e5, e6, e7, e8, e9, e10) refl;
                      })
                      | inr e10 ↦ elim (Bool-cases f.do_trace_get) [
                        | inl e11 ↦ inr (record {
                          action = do_trace_get;
                          left = record f { do_trace_get = false };
                          chosen = rw (e0, e1, e2, e3, e4, e5, e6, e7, e8, e9, e10, e11) refl;
                          in_order = rw (e0, e1, e2, e3, e4, e5, e6, e7, e8, e9, e10, e11) refl;
                        })
                        | inr e11 ↦ elim (Bool-cases f.do_trace_set) [
                          | inl e12 ↦ inr (record {
                            action = do_trace_set;
                            left = record f { do_trace_set = false };
                            chosen =
                                rw (e0, e1, e2, e3, e4, e5, e6, e7, e8, e9, e10, e11, e12) refl;
                            in_order =
                                rw (e0, e1, e2, e3, e4, e5, e6, e7, e8, e9, e10, e11, e12) refl;
                          })
                          | inr e12 ↦ inl (
                            rw (e0, e1, e2, e3, e4, e5, e6, e7, e8, e9, e10, e11, e12) refl,
                            rw (e0, e1, e2, e3, e4, e5, e6, e7, e8, e9, e10, e11, e12) refl,
                          )
                        ]
                      ]
                    ]
                  ]
                ]
              ]
            ]
          ]
        ]
      ]
    ]
  ]
]
