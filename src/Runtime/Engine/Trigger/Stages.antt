-- ===== src/Runtime/Engine/Trigger/Stages.antt =====
-- crates/decision-gate-core/src/runtime/engine.rs: the stage that a handled trigger leaves a run in.
use mathlib.Core.Path.{subst}
use mathlib.Core.Bool
use decision_gate.Prelude.Action.{lift}
use decision_gate.Runtime.Engine.Trigger.Progress.{none_has, some_has}
use decision_gate.Prelude.{
  ℕ, ◌==◌, string_eq, ◌≡◌, refl, ap, ◌∙◌, String, List, Option, none, some, Bool, true, false,
}
use decision_gate.Prelude.Outcome.{Outcome, ok, err, bind-eq-ok, ok-injective}
use decision_gate.Prelude.Action.Ensures.{
  Ensures, Ensures-pure, Ensures-lift, Ensures-raise, Ensures-bind, Ensures-any, Ensures-if,
}
use decision_gate.RetLogic.TriState.{TriState}
use decision_gate.Core.Disclosure.{PacketRecord}
use decision_gate.Core.Spec.{
  StageSpec, TimeoutSpec, TimeoutPolicy, fail, advance_with_flag, alternate_branch,
}
use decision_gate.Core.Spec.Validate.{stage_ids}
use decision_gate.Core.Spec.Validate.Resolve.{Known}
use decision_gate.Core.Spec.Validate.Valid.{IsValid}
use decision_gate.Core.State.{RunState, TriggerEvent, DecisionRecord, GateEvalRecord}
use decision_gate.Runtime.Json.{Json}
use decision_gate.Runtime.Engine.Types.{ControlPlane, ControlPlaneError, EvaluationResult}
use decision_gate.Runtime.Engine.Helpers.{
  record_trigger, stage_spec, gates_passed, next_seq, resolve_next_stage, existing_trigger_result,
}
use decision_gate.Runtime.Engine.Helpers.Stages.{resolve_next_stage-Known}
use decision_gate.Runtime.Engine.Trigger.{
  enter_stage, advance_to, decide_from_gate_evals, timeout_advance, on_timeout, recorded, timed_out,
  handle_timeout, evaluate, handle_new_trigger, handle_trigger_internal, replay_or_handle, is_tick,
  is_active,
}

module _ (J : Json) {W : Type 0} (plane : ControlPlane J W) where
  open J use {Value}
  open plane use {spec}

  abbrev pub Located : RunState Value → Type 0
  Located s = Known (stage_ids spec) s.current_stage_id

  module _ (valid : IsValid spec) where
    entered :
        (s : RunState Value) (t : TriggerEvent Value) (seq : ℕ) (next : String) (d : DecisionRecord)
        (r : Outcome ControlPlaneError (List (PacketRecord Value)))
        → Located s
        → Known (stage_ids spec) next
        → Located (enter_stage J plane s t seq next d r).0
    unfolding enter_stage
    entered s t seq next d (ok packets) h k = k
    entered s t seq next d (err e) h k = h

    advance_to-Located :
        (s : RunState Value) (t : TriggerEvent Value) (seq : ℕ) (timeout : Bool)
        (next : Option String)
        → Located s
        → ((x : String) → next ≡ some x → Known (stage_ids spec) x)
        → Ensures (λ x. Located x.0) (advance_to J plane s t seq timeout next)
    unfolding advance_to
    advance_to-Located s t seq timeout none h k = Ensures-pure _ _ h
    advance_to-Located s t seq timeout (some next) h k =
        Ensures-bind _ _ _ _ (Ensures-any _)
          λ packets _. Ensures-pure _ _ (entered s t seq next _ packets h (k next refl))

    -- The next stage of a stage of the specification, and the step to it.
    resolved :
        (s : RunState Value) (x : String) (stage : StageSpec Value)
        (outcomes : List (String × TriState))
        → stage_spec spec x ≡ ok stage
        → Ensures {S = W}
            (λ next. (y : String) → next ≡ some y → Known (stage_ids spec) y)
            (lift (resolve_next_stage spec stage outcomes s))
    resolved s x stage outcomes e =
        Ensures-lift _ _
          λ next h y n. resolve_next_stage-Known spec x stage outcomes s y valid e (h ∙ ap ok n)

    decide_from_gate_evals-Located :
        (s : RunState Value) (t : TriggerEvent Value) (x : String) (stage : StageSpec Value)
        (records : List (GateEvalRecord Value))
        → stage_spec spec x ≡ ok stage
        → Located s
        → Ensures (λ d. Located d.0) (decide_from_gate_evals J plane s t stage records)
    unfolding decide_from_gate_evals
    decide_from_gate_evals-Located s t x stage records e h =
        Ensures-bind _ _ _ _ (Ensures-any _) λ seq _.
          Ensures-if _ (gates_passed records) _ _
            (λ passed.
              Ensures-bind _ _ _ _ (resolved s x stage _ e)
                λ next k. advance_to-Located s t seq false next h k)
            (λ held. Ensures-pure _ _ h)

    timeout_advance-Located :
        (s : RunState Value) (t : TriggerEvent Value) (x : String) (stage : StageSpec Value)
        (seq : ℕ) (v : TriState)
        → stage_spec spec x ≡ ok stage
        → Located s
        → Ensures (λ d. Located d.0) (timeout_advance J plane s t stage seq v)
    unfolding timeout_advance
    timeout_advance-Located s t x stage seq v e h =
        Ensures-bind _ _ _ _ (resolved s x stage _ e)
          λ next k. advance_to-Located s t seq true next h k

    on_timeout-Located :
        (policy : TimeoutPolicy) (s : RunState Value) (t : TriggerEvent Value) (x : String)
        (stage : StageSpec Value) (seq : ℕ)
        → stage_spec spec x ≡ ok stage
        → Located s
        → Ensures (λ d. Located d.0) (on_timeout J plane policy s t stage seq)
    unfolding on_timeout
    on_timeout-Located fail s t x stage seq e h = Ensures-pure _ _ h
    on_timeout-Located advance_with_flag s t x stage seq e h =
        timeout_advance-Located s t x stage seq TriState.true e h
    on_timeout-Located alternate_branch s t x stage seq e h =
        timeout_advance-Located s t x stage seq TriState.unknown e h

    -- What an early answer says, if there is one.
    abbrev Early : Option (RunState Value × EvaluationResult Value) → Type 0
    Early o = (x : RunState Value × EvaluationResult Value) → o ≡ some x → Located x.0

    timed_out-Located :
        (timeout : Option TimeoutSpec) (s : RunState Value) (t : TriggerEvent Value) (x : String)
        (stage : StageSpec Value)
        → stage_spec spec x ≡ ok stage
        → Located s
        → Ensures Early (timed_out J plane timeout s t stage)
    unfolding timed_out recorded
    timed_out-Located none s t x stage e h = Ensures-pure _ _ (none_has (λ y. Located y.0))
    timed_out-Located (some timeout) s t x stage e h =
        Ensures-bind _ _ _ _ (Ensures-any _) λ expired _.
          Ensures-if _ expired _ _
            (λ _. Ensures-bind _ _ _ _ (Ensures-any _) λ seq _.
              Ensures-bind _ _ _ _ (on_timeout-Located stage.on_timeout s t x stage seq e h)
                λ d k. Ensures-pure _ _ (some_has (λ y. Located y.0) (recorded J plane d) k))
            (λ _. Ensures-pure _ _ (none_has (λ y. Located y.0)))

    handle_timeout-Located :
        (s : RunState Value) (t : TriggerEvent Value) (x : String) (stage : StageSpec Value)
        → stage_spec spec x ≡ ok stage
        → Located s
        → Ensures Early (handle_timeout J plane s t stage)
    unfolding handle_timeout
    handle_timeout-Located s t x stage e h =
        Ensures-if _ (is_tick t.kind) _ _ (λ _. timed_out-Located stage.timeout s t x stage e h)
          (λ _. Ensures-pure _ _ (none_has (λ y. Located y.0)))

    evaluate-Located :
        (early : Option (RunState Value × EvaluationResult Value)) (s : RunState Value)
        (t : TriggerEvent Value) (x : String) (stage : StageSpec Value)
        → stage_spec spec x ≡ ok stage
        → Located s
        → Early early
        → Ensures (λ y. Located y.0) (evaluate J plane s t stage early)
    unfolding evaluate recorded
    evaluate-Located (some y) s t x stage e h k = Ensures-pure _ _ (k y refl)
    evaluate-Located none s t x stage e h k = Ensures-bind _ _ _ _ (Ensures-any _) λ records _.
        Ensures-bind _ _ _ _ (decide_from_gate_evals-Located _ t x stage records e h)
          λ d l. Ensures-pure _ _ l

    record_trigger-Located :
        (s s₁ : RunState Value) (t : TriggerEvent Value)
        → Located s
        → record_trigger s t ≡ ok s₁
        → Located s₁
    unfolding record_trigger
    record_trigger-Located s s₁ t h e =
        let (seq, _, f) = bind-eq-ok (next_seq s.triggers) _ e in
        subst Located (ok-injective _ s₁ f) h

    handle_new_trigger-Located :
        (s : RunState Value) (t : TriggerEvent Value)
        → Located s
        → Ensures (λ y. Located y.0) (handle_new_trigger J plane s t)
    unfolding handle_new_trigger
    handle_new_trigger-Located s t h =
        Ensures-bind Located _ _ _ (Ensures-lift _ _ (λ s₁ e. record_trigger-Located s s₁ t h e))
          λ s₁ k.
            Ensures-bind (λ stage. stage_spec spec s₁.current_stage_id ≡ ok stage) _ _ _
              (Ensures-lift _ _ (λ stage e. e))
              λ stage e.
                Ensures-bind _ _ _ _ (handle_timeout-Located s₁ t s₁.current_stage_id stage e k)
                  λ early l. evaluate-Located early s₁ t s₁.current_stage_id stage e k l

    replay_or_handle-Located :
        (known : Option (EvaluationResult Value)) (s : RunState Value) (t : TriggerEvent Value)
        → Located s
        → Ensures (λ y. Located y.0) (replay_or_handle J plane known s t)
    unfolding replay_or_handle
    replay_or_handle-Located (some result) s t h = Ensures-pure _ _ h
    replay_or_handle-Located none s t h = handle_new_trigger-Located s t h

    pub handle_trigger_internal-Located :
        (s : RunState Value) (t : TriggerEvent Value)
        → Located s
        → Ensures (λ y. Located y.0) (handle_trigger_internal J plane s t)
    unfolding handle_trigger_internal
    handle_trigger_internal-Located s t h =
        Ensures-if _ (Bool.not (is_active s.status)) _ _
          (λ _. Ensures-bind _ _ _ _ (Ensures-any _) λ result _. Ensures-pure _ _ h)
          (λ _.
            Ensures-if _ (Bool.not (t.run_id == s.run_id)) _ _ (λ _. Ensures-raise _ _)
              (λ _. replay_or_handle-Located (existing_trigger_result s t) s t h))
