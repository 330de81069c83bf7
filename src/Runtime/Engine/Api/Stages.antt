-- ===== src/Runtime/Engine/Api/Stages.antt =====
-- crates/decision-gate-core/src/runtime/engine.rs: the stages that the runs of a control plane are in.
use mathlib.Core.Path.{subst}
use decision_gate.Prelude.{◌≡◌, refl, sym, ◌∙◌, String, List, [], ◌∷◌, Option, get_elem?, head?}
use decision_gate.Prelude.Outcome.{ok}
use decision_gate.Core.Hashing.{HashError, Codec}
use decision_gate.Core.Spec.{ScenarioSpec, StageSpec}
use decision_gate.Core.Spec.Validate.{stage_ids}
use decision_gate.Core.Spec.Validate.Resolve.{Known}
use decision_gate.Core.Spec.Validate.Valid.{IsValid}
use decision_gate.Core.State.{RunState}
use decision_gate.Runtime.Json.{Json}
use decision_gate.Runtime.Interfaces.{EvidenceProvider, Dispatcher, RunStateStore, PolicyDecider}
use decision_gate.Runtime.Engine.Types.{
  ControlPlane, ControlPlaneConfig, ControlPlaneError, Document,
}
use decision_gate.Runtime.Engine.Construct.{new, new-IsValid}
use decision_gate.Runtime.Engine.Helpers.{stage_spec}
use decision_gate.Runtime.Engine.Helpers.Stages.{stage_spec-Known, Known-get_elem?}
use decision_gate.Runtime.Engine.Trigger.Stages.{Located, handle_trigger_internal-Located}
use decision_gate.Runtime.Engine.Api.Start.{start_run-Started}
use decision_gate.Runtime.Engine.Api.Reachable.{Reachable, started, triggered, logged}

head?-get_elem? : {A : Type 0} (xs : List A) → get_elem? xs 0 ≡ head? xs
head?-get_elem? [] = refl
head?-get_elem? (x ∷ xs) = refl

module _ (J : Json) {W : Type 0} (plane : ControlPlane J W) where
  open J use {Value}
  open plane use {spec}

  reached : (s : RunState Value) → IsValid spec → Reachable J plane s → Located J plane s
  reached _ v (started run started_at dispatch_initial w s e) =
      let (stage, first, id) =
        (start_run-Started J plane run started_at dispatch_initial w s e).first_stage in
      subst (Known (stage_ids spec)) (sym id) (
        Known-get_elem? (λ s. s.stage_id) spec.stages 0 stage (head?-get_elem? spec.stages ∙ first))
  reached _ v (triggered s₀ s t r w before e) =
      (handle_trigger_internal-Located J plane v s₀ t (reached s₀ v before)).at w (s, r) e
  reached _ v (logged s₀ submissions tool_calls before) = reached s₀ v before

module _ (J : Json) {W : Type 0} (spec : ScenarioSpec J.Value)
    (evidence : EvidenceProvider J.Value W) (dispatcher : Dispatcher J.Value W)
    (store : RunStateStore J.Value W) (policy : Option (PolicyDecider J.Value W))
    (config : ControlPlaneConfig) (codec : Codec (Document J.Value))
    (error_text : ControlPlaneError → String) (hash_error_text : HashError → String)
    (plane : ControlPlane J W) where
  -- Every run of a control plane that `new` constructs is, in every state that it reaches, in a stage
  -- of the specification, which the handling of the next trigger finds.
  pub Reachable-Located :
      (s : RunState J.Value)
      → new J spec evidence dispatcher store policy config codec error_text hash_error_text
        ≡ ok plane
      → Reachable J plane s
      → (stage : StageSpec J.Value) × (stage_spec plane.spec s.current_stage_id ≡ ok stage)
  Reachable-Located s h r = stage_spec-Known plane.spec s.current_stage_id (
      reached J plane s
        (new-IsValid J spec evidence dispatcher store policy config codec error_text hash_error_text
          plane h)
        r)
