-- ===== src/Runtime/Engine/Api/Start.antt =====
-- The state that `start_run` saves and returns.
use decision_gate.Prelude.{◌+◌, ◌≡◌, refl, ap, String, List, [], ◌∷◌, none, some, Bool, head?}
use decision_gate.Prelude.Outcome.{ok, err}
use decision_gate.Prelude.Action.Ensures.{
  Ensures, Ensures-pure, Ensures-lift, Ensures-bind, Ensures-any, Ensures-if,
}
use mathlib.Core.Path.{subst}
use decision_gate.Core.Time.{Timestamp}
use decision_gate.Core.Hashing.{HashDigest}
use decision_gate.Core.Spec.{StageSpec}
use decision_gate.Core.State.{RunConfig, RunState, active}
use decision_gate.Runtime.Json.{Json}
use decision_gate.Runtime.Engine.Types.{ControlPlane, missing_stages}
use decision_gate.Runtime.Engine.Helpers.{decision_id_of}
use decision_gate.Runtime.Engine.Trigger.Progress.{Owned, next_seq_lem, stage_packets-Owned}
use decision_gate.Runtime.Engine.Trigger.Logs.{IsWellFormed, Issued-append}
use decision_gate.Runtime.Engine.Api.{initial_state, dispatch_first, start_run, first_stage}

module _ (J : Json) {W : Type 0} (plane : ControlPlane J W) where
  open J use {Value}
  open plane use {spec}

  -- A fresh run in the first stage of the specification.
  pub record Started (run : RunConfig) (s : RunState Value) : Type 0 where
    pub logs : IsWellFormed s
    pub tenant_id : s.tenant_id ≡ run.tenant_id
    pub namespace_id : s.namespace_id ≡ run.namespace_id
    pub run_id : s.run_id ≡ run.run_id
    pub scenario_id : s.scenario_id ≡ run.scenario_id
    pub dispatch_targets : s.dispatch_targets ≡ run.dispatch_targets
    pub status : s.status ≡ active
    pub first_stage :
        (stage : StageSpec Value) × (head? spec.stages ≡ some stage)
        × (s.current_stage_id ≡ stage.stage_id)

  abbrev First : String → Type 0
  First stage_id =
      (stage : StageSpec Value) × (head? spec.stages ≡ some stage) × (stage_id ≡ stage.stage_id)

  first_of :
      (stages : List (StageSpec Value)) (stage_id : String)
      → (elim (head? stages) [ none ↦ err missing_stages | some stage ↦ ok stage.stage_id ])
        ≡ ok stage_id
      → (stage : StageSpec Value) × (head? stages ≡ some stage) × (stage_id ≡ stage.stage_id)
  first_of [] stage_id h = cc
  first_of (stage ∷ stages) stage_id h = (stage, refl, cc)

  first_stage-First : (stage_id : String) → first_stage J plane ≡ ok stage_id → First stage_id
  unfolding first_stage
  first_stage-First stage_id h = first_of spec.stages stage_id h

  dispatch_first-Started :
      (run : RunConfig) (stage_id : String) (spec_hash : HashDigest) (started_at : Timestamp)
      → First stage_id
      → Ensures (Started run) (
          dispatch_first J plane
            (initial_state J plane run stage_id spec_hash started_at)
            stage_id
            started_at)
  unfolding dispatch_first initial_state
  dispatch_first-Started run stage_id spec_hash started_at first =
      Ensures-bind _ _ _ _ (Ensures-any _) λ trigger_seq _.
        Ensures-bind (λ n. n ≡ 0 + 1) _ _ _ (Ensures-lift _ _ (next_seq_lem []))
          λ seq e. Ensures-bind _ _ _ _ (stage_packets-Owned J plane _ _ stage_id) λ packets owned.
            Ensures-pure _ _ (record {
              logs = record {
                numbered = (e, ap decision_id_of e, tt);
                issued =
                    Issued-append 0 [] packets tt
                      (subst (λ id. Owned id packets) (ap decision_id_of e) owned);
              };
              tenant_id = refl;
              namespace_id = refl;
              run_id = refl;
              scenario_id = refl;
              dispatch_targets = refl;
              status = refl;
              first_stage = first;
            })

  initial_state-Started :
      (run : RunConfig) (stage_id : String) (spec_hash : HashDigest) (started_at : Timestamp)
      → First stage_id
      → Started run (initial_state J plane run stage_id spec_hash started_at)
  unfolding initial_state
  initial_state-Started run stage_id spec_hash started_at first = record {
    logs = record { numbered = tt; issued = tt };
    tenant_id = refl;
    namespace_id = refl;
    run_id = refl;
    scenario_id = refl;
    dispatch_targets = refl;
    status = refl;
    first_stage = first;
  }

  start_run-Ensures :
      (run : RunConfig) (started_at : Timestamp) (dispatch_initial : Bool)
      → Ensures (Started run) (start_run J plane run started_at dispatch_initial)
  unfolding start_run
  start_run-Ensures run started_at dispatch_initial = Ensures-bind _ _ _ _ (Ensures-any _) λ a _.
      Ensures-bind _ _ _ _ (Ensures-any _) λ b _. Ensures-bind _ _ _ _ (Ensures-any _) λ existing _.
        Ensures-bind _ _ _ _ (Ensures-any _) λ c _.
          Ensures-bind First _ _ _ (Ensures-lift _ _ first_stage-First) λ stage_id first.
            Ensures-bind _ _ _ _ (Ensures-any _) λ spec_hash _.
              Ensures-bind (Started run) _ _ _
                (Ensures-if _ dispatch_initial _ _
                  (λ e. dispatch_first-Started run stage_id spec_hash started_at first)
                  (λ e.
                    Ensures-pure _ _
                      (initial_state-Started run stage_id spec_hash started_at first)))
                λ state h. Ensures-bind _ _ _ _ (Ensures-any _) λ saved _. Ensures-pure _ _ h

  -- A run that `start_run` returns, with or without the initial dispatch, is active in the first stage of
  -- the specification, carries the identifiers and targets of its configuration, and has well-formed logs.
  pub start_run-Started :
      (run : RunConfig) (started_at : Timestamp) (dispatch_initial : Bool) (w : W)
      (s : RunState Value)
      → (start_run J plane run started_at dispatch_initial w).0 ≡ ok s
      → Started run s
  start_run-Started run started_at dispatch_initial w s h =
      (start_run-Ensures run started_at dispatch_initial).at w s h
