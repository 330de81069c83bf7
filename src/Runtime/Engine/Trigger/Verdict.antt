-- ===== src/Runtime/Engine/Trigger/Verdict.antt =====
-- What a decision about a new trigger rests on, and where it takes the run.
use mathlib.Core.Bool
use mathlib.Core.Path.{subst}
use decision_gate.Prelude.{
  ℕ, ◌≡◌, refl, ◌∙◌, ap, String, List, [], ◌∷◌, ◌++◌, map, filter, Option, none, some, Bool, true,
  false, Bool-cases, inl, inr, All, arith,
}
use decision_gate.Prelude.Outcome.{Outcome, ok, err, bind-eq-ok, ok-injective}
use decision_gate.Prelude.Action.Ensures.{
  Ensures, Ensures-pure, Ensures-lift, Ensures-bind, Ensures-any, Ensures-weaken,
}
use decision_gate.RetLogic.TriState.{TriState, is_true, LogicMode}
use decision_gate.Core.Evidence.{TrustRequirement}
use decision_gate.Core.Disclosure.{PacketRecord}
use decision_gate.Core.Spec.{
  StageSpec, GateSpec, TimeoutSpec, TimeoutPolicy, fail, advance_with_flag, alternate_branch,
}
use decision_gate.Core.State.{
  RunState, completed, failed, TriggerEvent, DecisionOutcome, start, complete, advance, hold,
  GateEvalRecord, EvidenceRecord,
}
use decision_gate.Runtime.Json.{Json}
use decision_gate.Runtime.Gate.{evaluate_gate}
use decision_gate.Runtime.Interfaces.{EvidenceContext}
use decision_gate.Runtime.Engine.Types.{ControlPlane, ControlPlaneError, EvaluationResult}
use decision_gate.Runtime.Engine.Helpers.{
  next_seq, record_trigger, stage_spec, gates_passed, timeout_expired, build_safe_summary,
}
use decision_gate.Runtime.Engine.Evidence.{evaluate_gates}
use decision_gate.Runtime.Engine.Trigger.Progress.{
  Progress, none_has, some_has, handle_new_trigger-Progress,
}
use decision_gate.Runtime.Engine.Trigger.{
  Decided, enter_stage, advance_to, decide_from_gate_evals, timeout_advance, on_timeout, recorded,
  timed_out, handle_timeout, evaluate, evaluate_stage_gates, handle_new_trigger, is_tick,
  decision_for,
}

module _ {V : Type 0} where
  -- The run moves on: it enters the stage named by the decision, or completes, or fails where it is. Only
  -- an advance may have packets.
  abbrev pub Moved :
      Bool
      → RunState V
      → TriggerEvent V
      → RunState V
      → DecisionOutcome
      → List (PacketRecord V)
      → Type 0
  Moved timeout s t s' (advance from_stage to_stage flag) packets =
      (from_stage ≡ s.current_stage_id)
      × (flag ≡ timeout)
      × (s'.current_stage_id ≡ to_stage)
      × (s'.stage_entered_at ≡ t.time)
      × (s'.status ≡ s.status)
  Moved timeout s t s' (complete stage) packets =
      (stage ≡ s.current_stage_id)
      × (s'.current_stage_id ≡ s.current_stage_id)
      × (s'.stage_entered_at ≡ s.stage_entered_at)
      × (s'.status ≡ completed)
      × (packets ≡ [])
  Moved timeout s t s' (DecisionOutcome.fail reason) packets =
      (s'.current_stage_id ≡ s.current_stage_id)
      × (s'.stage_entered_at ≡ s.stage_entered_at)
      × (s'.status ≡ failed)
      × (packets ≡ [])
  Moved timeout s t s' (hold summary) packets = ⊥
  Moved timeout s t s' (start stage) packets = ⊥

  abbrev pub AllTrue : List (GateEvalRecord V) → Type 0
  AllTrue records = All (λ r. r.evaluation.status ≡ TriState.true) records

  -- The gates of the stage decide: the run moves on only if all of them are true, and otherwise
  -- stays where it is, without a packet, and with a summary that names the others.
  abbrev pub Gated :
      List (GateEvalRecord V)
      → RunState V
      → TriggerEvent V
      → RunState V
      → DecisionOutcome
      → List (PacketRecord V)
      → Type 0
  Gated records s t s' (hold summary) packets =
      (gates_passed records ≡ false)
      × (summary.unmet_gates
          ≡ map (λ r. r.evaluation.gate_id)
              (filter (λ r. Bool.not (is_true r.evaluation.status)) records))
      × (s'.current_stage_id ≡ s.current_stage_id)
      × (s'.stage_entered_at ≡ s.stage_entered_at)
      × (s'.status ≡ s.status)
      × (packets ≡ [])
  Gated records s t s' outcome packets = AllTrue records × Moved false s t s' outcome packets

  passed-AllTrue :
      (records : List (GateEvalRecord V)) → gates_passed records ≡ true → AllTrue records
  unfolding gates_passed
  passed-AllTrue [] h = tt
  passed-AllTrue (r ∷ records) h = (ground arith, passed-AllTrue records (ground arith))

  Moved-Gated :
      (records : List (GateEvalRecord V)) (s : RunState V) (t : TriggerEvent V) (s' : RunState V)
      (o : DecisionOutcome) (packets : List (PacketRecord V))
      → AllTrue records
      → Moved false s t s' o packets
      → Gated records s t s' o packets
  Moved-Gated records s t s' (advance f g b) packets h k = (h, k)
  Moved-Gated records s t s' (complete f) packets h k = (h, k)
  Moved-Gated records s t s' (DecisionOutcome.fail f) packets h k = (h, k)
  Moved-Gated records s t s' (hold f) packets h k = absurd k
  Moved-Gated records s t s' (start f) packets h k = absurd k

  gate_ids :
      (logic : LogicMode) (default : TrustRequirement)
      (requirements : List (String × TrustRequirement)) (records : List (EvidenceRecord V))
      (trigger_id stage_id : String) (gates : List GateSpec)
      → map
          (λ r. r.evaluation.gate_id)
          (evaluate_gates logic default requirements records trigger_id stage_id gates)
        ≡ map (λ g. g.gate_id) gates
  unfolding evaluate_gates evaluate_gate
  gate_ids logic default requirements records trigger_id stage_id [] = refl
  gate_ids logic default requirements records trigger_id stage_id (g ∷ gates) =
      ap (λ l. g.gate_id ∷ l)
        (gate_ids logic default requirements records trigger_id stage_id gates)

module _ (J : Json) {W : Type 0} (plane : ControlPlane J W) where
  open J use {Value}
  open plane use {spec}

  -- One record for each gate of the current stage, in the order of the specification.
  abbrev pub Evaluated : RunState Value → List (GateEvalRecord Value) → Type 0
  Evaluated s records =
      (stage : StageSpec Value) × (stage_spec spec s.current_stage_id ≡ ok stage)
      × (map (λ r. r.evaluation.gate_id) records ≡ map (λ g. g.gate_id) stage.gates)

  -- The deadline of the current stage has passed.
  abbrev pub Expired : RunState Value → TriggerEvent Value → Type 0
  Expired s t =
      (stage : StageSpec Value) × (timeout : TimeoutSpec) × (stage_spec spec s.current_stage_id
        ≡ ok stage)
      × (stage.timeout ≡ some timeout)
      × (timeout_expired s.stage_entered_at t.time timeout.timeout_ms ≡ ok true)

  pub data Verdict (s : RunState Value) (t : TriggerEvent Value) (s' : RunState Value)
      (o : DecisionOutcome) (packets : List (PacketRecord Value)) : Type 0 where
    by_gates :
        (records : List (GateEvalRecord Value))
        → s'.gate_evals ≡ s.gate_evals ++ records
        → Evaluated s records
        → Gated records s t s' o packets
        → Verdict s t s' o packets
    by_timeout :
        is_tick t.kind ≡ true
        → Expired s t
        → s'.gate_evals ≡ s.gate_evals
        → Moved true s t s' o packets
        → Verdict s t s' o packets

  abbrev Moving : Bool → RunState Value → TriggerEvent Value → Decided J plane → Type 0
  Moving timeout s t x = (x.0.gate_evals ≡ s.gate_evals) × Moved timeout s t x.0 x.1.outcome x.2

  entered-Moving :
      (s : RunState Value) (t : TriggerEvent Value) (seq : ℕ) (timeout : Bool) (next : String)
      (r : Outcome ControlPlaneError (List (PacketRecord Value)))
      → Moving timeout s t (
          enter_stage J plane s t seq next
            (decision_for s t seq (advance s.current_stage_id next timeout))
            r)
  unfolding enter_stage
  entered-Moving s t seq timeout next (ok packets) = (refl, (refl, refl, refl, refl, refl))
  entered-Moving s t seq timeout next (err e) = (refl, (refl, refl, refl, refl))

  advance_to-Moving :
      (s : RunState Value) (t : TriggerEvent Value) (seq : ℕ) (timeout : Bool)
      (next : Option String)
      → Ensures (Moving timeout s t) (advance_to J plane s t seq timeout next)
  unfolding advance_to
  advance_to-Moving s t seq timeout none = Ensures-pure _ _ (refl, (refl, refl, refl, refl, refl))
  advance_to-Moving s t seq timeout (some next) =
      Ensures-bind _ _ _ _ (Ensures-any _)
        λ packets _. Ensures-pure _ _ (entered-Moving s t seq timeout next packets)

  decide_from_gate_evals-Gated :
      (s : RunState Value) (t : TriggerEvent Value) (stage : StageSpec Value)
      (records : List (GateEvalRecord Value))
      → Ensures
          (λ x. (x.0.gate_evals ≡ s.gate_evals) × Gated records s t x.0 x.1.outcome x.2)
          (decide_from_gate_evals J plane s t stage records)
  unfolding decide_from_gate_evals build_safe_summary
  decide_from_gate_evals-Gated s t stage records = Ensures-bind _ _ _ _ (Ensures-any _) λ seq _.
      elim (Bool-cases (gates_passed records)) [
        | inl passed ↦ rw passed (
            Ensures-bind _ _ _ _ (Ensures-any _) λ next _.
              Ensures-weaken
                (λ x h.
                  (h.0, Moved-Gated records s t x.0 _ x.2 (passed-AllTrue records passed) h.1))
                (advance_to-Moving s t seq false next))
        | inr held ↦ rw held (Ensures-pure _ _ (refl, (held, refl, refl, refl, refl, refl)))
      ]

  timeout_advance-Moving :
      (s : RunState Value) (t : TriggerEvent Value) (stage : StageSpec Value) (seq : ℕ)
      (v : TriState)
      → Ensures (Moving true s t) (timeout_advance J plane s t stage seq v)
  unfolding timeout_advance
  timeout_advance-Moving s t stage seq v =
      Ensures-bind _ _ _ _ (Ensures-any _) λ next _. advance_to-Moving s t seq true next

  on_timeout-Moving :
      (policy : TimeoutPolicy) (s : RunState Value) (t : TriggerEvent Value)
      (stage : StageSpec Value) (seq : ℕ)
      → Ensures (Moving true s t) (on_timeout J plane policy s t stage seq)
  unfolding on_timeout
  on_timeout-Moving fail s t stage seq = Ensures-pure _ _ (refl, (refl, refl, refl, refl))
  on_timeout-Moving advance_with_flag s t stage seq =
      timeout_advance-Moving s t stage seq TriState.true
  on_timeout-Moving alternate_branch s t stage seq =
      timeout_advance-Moving s t stage seq TriState.unknown

  abbrev Judged :
      RunState Value → TriggerEvent Value → RunState Value × EvaluationResult Value → Type 0
  Judged s t x = Verdict s t x.0 x.1.decision.outcome x.1.packets

  recorded-by_timeout :
      (s : RunState Value) (t : TriggerEvent Value) (x : Decided J plane)
      → is_tick t.kind ≡ true
      → Expired s t
      → Moving true s t x
      → Judged s t (recorded J plane x)
  unfolding recorded
  recorded-by_timeout s t (s', d, packets) ticks expired m =
      by_timeout ticks expired m.0 (moved d.outcome m.1)
    where
      moved :
          (o : DecisionOutcome)
          → Moved true s t s' o packets
          → Moved true s t
              (record s' { decisions = s'.decisions ++ d ∷ []; packets = s'.packets ++ packets })
              o
              packets
      moved (advance f g b) k = k
      moved (complete f) k = k
      moved (DecisionOutcome.fail f) k = k
      moved (hold f) k = k
      moved (start f) k = k

  recorded-by_gates :
      (s : RunState Value) (t : TriggerEvent Value) (records : List (GateEvalRecord Value))
      (x : Decided J plane)
      → Evaluated s records
      → x.0.gate_evals ≡ s.gate_evals ++ records
      → Gated records s t x.0 x.1.outcome x.2
      → Judged s t (recorded J plane x)
  unfolding recorded
  recorded-by_gates s t records (s', d, packets) e g k = by_gates records g e (gated d.outcome k)
    where
      gated :
          (o : DecisionOutcome)
          → Gated records s t s' o packets
          → Gated records s t
              (record s' { decisions = s'.decisions ++ d ∷ []; packets = s'.packets ++ packets })
              o
              packets
      gated (advance f g b) k = k
      gated (complete f) k = k
      gated (DecisionOutcome.fail f) k = k
      gated (hold f) k = k
      gated (start f) k = k

  timed_out-Judged :
      (timeout : Option TimeoutSpec) (s : RunState Value) (t : TriggerEvent Value)
      (stage : StageSpec Value)
      → is_tick t.kind ≡ true
      → stage_spec spec s.current_stage_id ≡ ok stage
      → stage.timeout ≡ timeout
      → Ensures
          (λ o. (x : RunState Value × EvaluationResult Value) → o ≡ some x → Judged s t x)
          (timed_out J plane timeout s t stage)
  unfolding timed_out
  timed_out-Judged none s t stage ticks found e = Ensures-pure _ _ (none_has (Judged s t))
  timed_out-Judged (some timeout) s t stage ticks found e =
      Ensures-bind (λ b. timeout_expired s.stage_entered_at t.time timeout.timeout_ms ≡ ok b) _ _ _
        (Ensures-lift _ _ (λ b h. h))
        λ expired late. elim (Bool-cases expired) [
          | inl yes_expired ↦ rw yes_expired (
              Ensures-bind _ _ _ _ (Ensures-any _) λ seq _.
                Ensures-bind _ _ _ _ (on_timeout-Moving stage.on_timeout s t stage seq) λ x m.
                  Ensures-pure _ _ (
                    some_has (Judged s t) _ (
                      recorded-by_timeout s t x ticks
                        (stage, timeout, found, e, late ∙ ap ok yes_expired) m)))
          | inr not_expired ↦ rw not_expired (Ensures-pure _ _ (none_has (Judged s t)))
        ]

  handle_timeout-Judged :
      (s : RunState Value) (t : TriggerEvent Value) (stage : StageSpec Value)
      → stage_spec spec s.current_stage_id ≡ ok stage
      → Ensures
          (λ o. (x : RunState Value × EvaluationResult Value) → o ≡ some x → Judged s t x)
          (handle_timeout J plane s t stage)
  unfolding handle_timeout
  handle_timeout-Judged s t stage found = elim (Bool-cases (is_tick t.kind)) [
    | inl ticks ↦ rw ticks (timed_out-Judged stage.timeout s t stage ticks found refl)
    | inr other ↦ rw other (Ensures-pure _ _ (none_has (Judged s t)))
  ]

  evaluate_stage_gates-ids :
      (s : RunState Value) (t : TriggerEvent Value) (stage : StageSpec Value)
      (context : EvidenceContext)
      → Ensures
          (λ records. map (λ r. r.evaluation.gate_id) records ≡ map (λ g. g.gate_id) stage.gates)
          (evaluate_stage_gates J plane s t stage context)
  unfolding evaluate_stage_gates
  evaluate_stage_gates-ids s t stage context = Ensures-bind _ _ _ _ (Ensures-any _) λ specs _.
      Ensures-bind _ _ _ _ (Ensures-any _)
        λ evidence _. Ensures-pure _ _ (gate_ids _ _ _ evidence _ _ stage.gates)

  regated :
      (s : RunState Value) (t : TriggerEvent Value) (records : List (GateEvalRecord Value))
      (s' : RunState Value) (o : DecisionOutcome) (packets : List (PacketRecord Value))
      → Gated records (record s { gate_evals = s.gate_evals ++ records }) t s' o packets
      → Gated records s t s' o packets
  regated s t records s' (advance f g b) packets k = k
  regated s t records s' (complete f) packets k = k
  regated s t records s' (DecisionOutcome.fail f) packets k = k
  regated s t records s' (hold f) packets k = k
  regated s t records s' (start f) packets k = k

  evaluate-Judged :
      (early : Option (RunState Value × EvaluationResult Value)) (s : RunState Value)
      (t : TriggerEvent Value) (stage : StageSpec Value)
      → stage_spec spec s.current_stage_id ≡ ok stage
      → ((x : RunState Value × EvaluationResult Value) → early ≡ some x → Judged s t x)
      → Ensures (Judged s t) (evaluate J plane s t stage early)
  unfolding evaluate
  evaluate-Judged (some x) s t stage found k = Ensures-pure _ _ (k x refl)
  evaluate-Judged none s t stage found k =
      Ensures-bind _ _ _ _ (evaluate_stage_gates-ids s t stage _) λ records ids.
        Ensures-bind _ _ _ _ (decide_from_gate_evals-Gated _ t stage records) λ x h.
          Ensures-pure _ _ (
            recorded-by_gates s t records x (stage, found, ids) h.0
              (regated s t records x.0 _ x.2 h.1))

  abbrev with_triggers : RunState Value → RunState Value → RunState Value
  with_triggers s s₁ = record s { triggers = s₁.triggers }

  only_triggers :
      (s s₁ : RunState Value) (t : TriggerEvent Value)
      → record_trigger s t ≡ ok s₁
      → s₁ ≡ with_triggers s s₁
  unfolding record_trigger
  only_triggers s s₁ t h =
      let (seq, e, f) = bind-eq-ok (next_seq s.triggers) _ h in
      subst (λ z. z ≡ with_triggers s z) (ok-injective _ s₁ f) refl

  rejudged :
      (s s₁ : RunState Value) (t : TriggerEvent Value) (s' : RunState Value) (o : DecisionOutcome)
      (packets : List (PacketRecord Value))
      → Verdict (with_triggers s s₁) t s' o packets
      → Verdict s t s' o packets
  rejudged s s₁ t s' o packets (by_gates records g e k) = by_gates records g e (gated o k)
    where
      gated :
          (o : DecisionOutcome)
          → Gated records (with_triggers s s₁) t s' o packets
          → Gated records s t s' o packets
      gated (advance f g b) k = k
      gated (complete f) k = k
      gated (DecisionOutcome.fail f) k = k
      gated (hold f) k = k
      gated (start f) k = k
  rejudged s s₁ t s' o packets (by_timeout ticks e g k) = by_timeout ticks e g (moved o k)
    where
      moved :
          (o : DecisionOutcome)
          → Moved true (with_triggers s s₁) t s' o packets
          → Moved true s t s' o packets
      moved (advance f g b) k = k
      moved (complete f) k = k
      moved (DecisionOutcome.fail f) k = k
      moved (hold f) k = k
      moved (start f) k = k

  Judged-from :
      (s s₁ : RunState Value) (t : TriggerEvent Value) (x : RunState Value × EvaluationResult Value)
      → s₁ ≡ with_triggers s s₁
      → Judged s₁ t x
      → Judged s t x
  Judged-from s s₁ t x e k =
      rejudged s s₁ t x.0 x.1.decision.outcome x.1.packets
        (subst (λ z. Verdict z t x.0 x.1.decision.outcome x.1.packets) e k)

  new_trigger-Judged :
      (s : RunState Value) (t : TriggerEvent Value)
      → Ensures (Judged s t) (handle_new_trigger J plane s t)
  unfolding handle_new_trigger
  new_trigger-Judged s t =
      Ensures-bind (λ s₁. s₁ ≡ with_triggers s s₁) _ _ _
        (Ensures-lift _ _ (λ s₁ h. only_triggers s s₁ t h))
        λ s₁ e.
          Ensures-bind (λ stage. stage_spec spec s₁.current_stage_id ≡ ok stage) _ _ _
            (Ensures-lift _ _ (λ stage h. h))
            λ stage found. Ensures-bind _ _ _ _ (handle_timeout-Judged s₁ t stage found) λ early k.
              Ensures-weaken (λ x j. Judged-from s s₁ t x e j)
                (evaluate-Judged early s₁ t stage found k)

  -- The decision about a new trigger rests on the gates or on the clock. By the gates: each gate of
  -- the current stage was evaluated and logged, and only if every one of them is true does the run
  -- advance to the stage that the decision names, complete, or fail where it is; otherwise it holds
  -- with its stage, its time of entry and its status, issues no packet, and the summary names the gates
  -- that are not true. By the clock: the trigger is a tick, the deadline of the stage has passed, and an
  -- advance carries the timeout flag. Either way the trigger, one decision and that decision's packets,
  -- which only an advance has, are added to the logs, and nothing of the run changes besides these, the
  -- gates logged, the stage, its time of entry and the status.
  pub handle_new_trigger-Verdict :
      (s s' : RunState Value) (t : TriggerEvent Value) (r : EvaluationResult Value) (w : W)
      → (handle_new_trigger J plane s t w).0 ≡ ok (s', r)
      → Verdict s t s' r.decision.outcome r.packets × Progress J plane s t s' r
  handle_new_trigger-Verdict s s' t r w h = (
    (new_trigger-Judged s t).at w (s', r) h,
    (handle_new_trigger-Progress J plane s t).at w (s', r) h,
  )
