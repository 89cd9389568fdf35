-- ===== src/Component/Walks.antt =====
-- rc/control/component.py: sequences of requests to `Component`.
use artdaq_daqinterface.Prelude.{String, ◌≡◌, refl, sym, ap, ◌∙◌, Option, none, some, List, [], ◌∷◌}
use artdaq_daqinterface.Component.{Component, state_change, component_hook}
use artdaq_daqinterface.Component.Moves.{
  Request, request_text, Settled, settled_text, target, keeps_params, outcome, state_change_follows,
}

-- Where a sequence of requests leads in the diagram; a request that it does not allow stays.
abbrev pub stay_or : Settled → Option Settled → Settled
stay_or s none = s
stay_or s (some t) = t

abbrev pub walk : List Request → Settled → Settled
walk [] s = s
walk (r ∷ rs) s = walk rs (stay_or s (target r s))

module _ {A : Type 0} where
  -- The same requests, each with the same arguments, to a component.
  abbrev pub drive : String → A → List Request → Component A → Component A
  drive name args [] c = c
  drive name args (r ∷ rs) c =
      drive name args rs (state_change component_hook name (request_text r) args c).0

  outcome_settled :
      (c : Component A) (r : Request) (s : Settled) (args : A) (o : Option Settled)
      → (d : Component A) × (d.name ≡ c.name)
        × ((outcome c r s args o).0 ≡ record d { state = settled_text (stay_or s o) })
  outcome_settled c r s args none = (c, refl, refl)
  outcome_settled c r s args (some t) =
      (record c { run_params = keeps_params r args c.run_params }, refl, refl)

  drives :
      (name : String) (rs : List Request) (c : Component A) (s : Settled) (args : A)
      → c.name ≡ name
      → (drive name args rs (record c { state = settled_text s })).state ≡ settled_text (walk rs s)
  drives name [] c s args same = refl
  drives name (r ∷ rs) c s args same =
      let (d, kept, e) = outcome_settled c r s args (target r s) in
      let step : (state_change component_hook name (request_text r) args
            (record c { state = settled_text s })).0
          ≡ record d { state = settled_text (stay_or s (target r s)) } =
        ap
          (λ n.
            (state_change component_hook n (request_text r) args
              (record c { state = settled_text s })).0)
          (sym same)
        ∙ ap (λ x. x.0) (state_change_follows c r s args)
        ∙ e in
      ap (λ x. (drive name args rs x).state) step
      ∙ drives name rs d (stay_or s (target r s)) args (kept ∙ same)

  -- After any sequence of requests, a component is in the state to which the diagram leads, which is
  -- one of the five states between transitions.
  pub drive-walk :
      (rs : List Request) (c : Component A) (s : Settled) (args : A)
      → (drive c.name args rs (record c { state = settled_text s })).state
        ≡ settled_text (walk rs s)
  drive-walk rs c s args = drives c.name rs c s args refl
