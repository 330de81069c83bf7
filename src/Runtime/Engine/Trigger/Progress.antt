-- ===== src/Runtime/Engine/Trigger/Progress.antt =====
-- What a trigger that is handled for the first time does to the run state.
use decision_gate.Prelude.{
  ℕ, ◌+◌, ◌≡◌, refl, ap, String, List, [], ◌∷◌, ◌++◌, Option, none, some, Bool, true, false,
  Bool-cases, inl, inr, All, length, arith,
}
use mathlib.Core.Path.{subst}
use decision_gate.Prelude.Outcome.{Outcome, ok, err, bind-eq-ok, ok-injective}
use decision_gate.Prelude.Action.Ensures.{
  Ensures, Ensures-pure, Ensures-lift, Ensures-bind, Ensures-any, Ensures-attempt,
}
use decision_gate.RetLogic.TriState.{TriState}
use decision_gate.Core.Disclosure.{PacketRecord}
use decision_gate.Core.Spec.{
  PacketSpec, StageSpec, TimeoutSpec, TimeoutPolicy, fail, advance_with_flag, alternate_branch,
}
use decision_gate.Core.State.{RunState, TriggerEvent, DecisionRecord, GateEvalRecord}
use decision_gate.Runtime.Json.{Json}
use decision_gate.Runtime.Engine.Types.{ControlPlane, ControlPlaneError, EvaluationResult}
use decision_gate.Runtime.Engine.Helpers.{next_seq, decision_id_of, record_trigger, gates_passed}
use decision_gate.Runtime.Engine.Trigger.{
  Decided, enter_stage, advance_to, decide_from_gate_evals, timeout_advance, on_timeout, recorded,
  timed_out, handle_timeout, evaluate, handle_new_trigger, is_tick,
}
use decision_gate.Runtime.Engine.Trigger.Packets.{issue_packets, issue_stage_packets}

module _ {V : Type 0} where
  -- What no part of the handling of a trigger changes, but for the logs of triggers and gates.
  pub record Kept (s s' : RunState V) : Type 0 where
    pub tenant_id : s'.tenant_id ≡ s.tenant_id
    pub namespace_id : s'.namespace_id ≡ s.namespace_id
    pub run_id : s'.run_id ≡ s.run_id
    pub scenario_id : s'.scenario_id ≡ s.scenario_id
    pub spec_hash : s'.spec_hash ≡ s.spec_hash
    pub dispatch_targets : s'.dispatch_targets ≡ s.dispatch_targets
    pub submissions : s'.submissions ≡ s.submissions
    pub tool_calls : s'.tool_calls ≡ s.tool_calls
    pub triggers : s'.triggers ≡ s.triggers
    pub decisions : s'.decisions ≡ s.decisions
    pub packets : s'.packets ≡ s.packets

  abbrev pub Owned : String → List (PacketRecord V) → Type 0
  Owned decision_id packets = All (λ p. p.decision_id ≡ decision_id) packets

  -- A decision that is not yet recorded.
  pub record Decides (s : RunState V) (t : TriggerEvent V) (seq : ℕ) (s' : RunState V)
      (d : DecisionRecord) (packets : List (PacketRecord V)) : Type 0 where
    pub kept : Kept s s'
    pub seq_is : d.seq ≡ seq
    pub decision_id : d.decision_id ≡ decision_id_of seq
    pub trigger_id : d.trigger_id ≡ t.trigger_id
    pub owned : Owned d.decision_id packets

pub next_seq_lem {ℓ} : {A : Type ℓ} (xs : List A) (n : ℕ) → next_seq xs ≡ ok n → n ≡ length xs + 1
unfolding next_seq
next_seq_lem xs n h = ground arith

pub none_has {ℓ κ} : {A : Type ℓ} (P : A → Type κ) (a : A) → none ≡ some a → P a
none_has P a e = cc

some_eq {ℓ} : {A : Type ℓ} (a b : A) → some a ≡ some b → a ≡ b
some_eq a b e = cc

pub some_has {ℓ κ} : {A : Type ℓ} (P : A → Type κ) (b : A) → P b → (a : A) → some b ≡ some a → P a
some_has P b h a e = subst P (some_eq b a e) h

module _ (J : Json) {W : Type 0} (plane : ControlPlane J W) where
  open J use {Value}

  packets-Owned :
      (s : RunState Value) (d : DecisionRecord) (stage_id : String)
      (specs : List (PacketSpec Value))
      → Ensures (Owned d.decision_id) (issue_packets J plane s d stage_id specs)
  unfolding issue_packets
  packets-Owned s d stage_id [] = Ensures-pure _ [] tt
  packets-Owned s d stage_id (p ∷ ps) = Ensures-bind _ _ _ _ (Ensures-any _) λ envelope _.
      Ensures-bind _ _ _ _ (Ensures-any _) λ receipts _.
        Ensures-bind (Owned d.decision_id) _ _ _ (packets-Owned s d stage_id ps)
          λ records h. Ensures-pure _ _ (refl, h)

  pub stage_packets-Owned :
      (s : RunState Value) (d : DecisionRecord) (stage_id : String)
      → Ensures (Owned d.decision_id) (issue_stage_packets J plane s d stage_id)
  unfolding issue_stage_packets
  stage_packets-Owned s d stage_id =
      Ensures-bind _ _ _ _ (Ensures-any _) λ stage _. packets-Owned s d stage_id stage.entry_packets

  abbrev DecidedOk : RunState Value → TriggerEvent Value → ℕ → Decided J plane → Type 0
  DecidedOk s t seq x = Decides s t seq x.0 x.1 x.2

  Kept-self : (s : RunState Value) → Kept s s
  Kept-self s = ground arith

  entered :
      (s : RunState Value) (t : TriggerEvent Value) (seq : ℕ) (next : String) (d : DecisionRecord)
      (r : Outcome ControlPlaneError (List (PacketRecord Value)))
      → d.seq ≡ seq
      → d.decision_id ≡ decision_id_of seq
      → d.trigger_id ≡ t.trigger_id
      → ((out : List (PacketRecord Value)) → r ≡ ok out → Owned d.decision_id out)
      → DecidedOk s t seq (enter_stage J plane s t seq next d r)
  unfolding enter_stage
  entered s t seq next d (ok packets) a b c k = record {
    kept = ground arith;
    seq_is = a;
    decision_id = b;
    trigger_id = c;
    owned = k packets refl;
  }
  entered s t seq next d (err e) a b c k = record {
    kept = ground arith;
    seq_is = refl;
    decision_id = refl;
    trigger_id = refl;
    owned = tt;
  }

  advance_to-Decides :
      (s : RunState Value) (t : TriggerEvent Value) (seq : ℕ) (timeout : Bool)
      (next : Option String)
      → Ensures (DecidedOk s t seq) (advance_to J plane s t seq timeout next)
  unfolding advance_to
  advance_to-Decides s t seq timeout none = Ensures-pure _ _ (record {
    kept = ground arith;
    seq_is = refl;
    decision_id = refl;
    trigger_id = refl;
    owned = tt;
  })
  advance_to-Decides s t seq timeout (some next) =
      Ensures-bind _ _ _ _ (Ensures-attempt _ _ (stage_packets-Owned s _ next))
        λ packets h. Ensures-pure _ _ (entered s t seq next _ packets refl refl refl h)

  decide_from_gate_evals-Decides :
      (s : RunState Value) (t : TriggerEvent Value) (stage : StageSpec Value)
      (records : List (GateEvalRecord Value))
      → Ensures
          (DecidedOk s t (length s.decisions + 1))
          (decide_from_gate_evals J plane s t stage records)
  unfolding decide_from_gate_evals
  decide_from_gate_evals-Decides s t stage records =
      Ensures-bind (λ seq. seq ≡ length s.decisions + 1) _ _ _
        (Ensures-lift _ _ (next_seq_lem s.decisions))
        λ seq e. rw (← e) (elim (Bool-cases (gates_passed records)) [
          | inl passed ↦
              rw passed (
                Ensures-bind _ _ _ _ (Ensures-any _)
                  λ next _. advance_to-Decides s t seq false next)
          | inr held ↦ rw held (
              Ensures-pure _ _ (record {
                kept = Kept-self s;
                seq_is = refl;
                decision_id = refl;
                trigger_id = refl;
                owned = tt;
              }))
        ])

  timeout_advance-Decides :
      (s : RunState Value) (t : TriggerEvent Value) (stage : StageSpec Value) (seq : ℕ)
      (v : TriState)
      → Ensures (DecidedOk s t seq) (timeout_advance J plane s t stage seq v)
  unfolding timeout_advance
  timeout_advance-Decides s t stage seq v =
      Ensures-bind _ _ _ _ (Ensures-any _) λ next _. advance_to-Decides s t seq true next

  on_timeout-Decides :
      (policy : TimeoutPolicy) (s : RunState Value) (t : TriggerEvent Value)
      (stage : StageSpec Value) (seq : ℕ)
      → Ensures (DecidedOk s t seq) (on_timeout J plane policy s t stage seq)
  unfolding on_timeout
  on_timeout-Decides fail s t stage seq = Ensures-pure _ _ (record {
    kept = ground arith;
    seq_is = refl;
    decision_id = refl;
    trigger_id = refl;
    owned = tt;
  })
  on_timeout-Decides advance_with_flag s t stage seq =
      timeout_advance-Decides s t stage seq TriState.true
  on_timeout-Decides alternate_branch s t stage seq =
      timeout_advance-Decides s t stage seq TriState.unknown

  -- The one step that a new trigger makes: its record, one decision of its own with the next number,
  -- and that decision's packets are appended; all else but stage, status and gate log stays.
  pub record Progress (s : RunState Value) (t : TriggerEvent Value) (s' : RunState Value)
      (r : EvaluationResult Value) : Type 0 where
    pub triggers :
        s'.triggers ≡ s.triggers ++ record { seq = length s.triggers + 1; event = t } ∷ []
    pub decisions : s'.decisions ≡ s.decisions ++ r.decision ∷ []
    pub packets : s'.packets ≡ s.packets ++ r.packets
    pub seq_is : r.decision.seq ≡ length s.decisions + 1
    pub decision_id : r.decision.decision_id ≡ decision_id_of (length s.decisions + 1)
    pub trigger_id : r.decision.trigger_id ≡ t.trigger_id
    pub owned : Owned r.decision.decision_id r.packets
    pub status : r.status ≡ s'.status
    pub tenant_id : s'.tenant_id ≡ s.tenant_id
    pub namespace_id : s'.namespace_id ≡ s.namespace_id
    pub run_id : s'.run_id ≡ s.run_id
    pub scenario_id : s'.scenario_id ≡ s.scenario_id
    pub spec_hash : s'.spec_hash ≡ s.spec_hash
    pub dispatch_targets : s'.dispatch_targets ≡ s.dispatch_targets
    pub submissions : s'.submissions ≡ s.submissions
    pub tool_calls : s'.tool_calls ≡ s.tool_calls

  abbrev Progressed :
      RunState Value → TriggerEvent Value → RunState Value × EvaluationResult Value → Type 0
  Progressed s t x = Progress s t x.0 x.1

  -- The state in which the trigger is recorded, and nothing else yet.
  record Recording (s : RunState Value) (t : TriggerEvent Value) (s' : RunState Value)
      : Type 0 where
    triggers : s'.triggers ≡ s.triggers ++ record { seq = length s.triggers + 1; event = t } ∷ []
    decisions : s'.decisions ≡ s.decisions
    packets : s'.packets ≡ s.packets
    tenant_id : s'.tenant_id ≡ s.tenant_id
    namespace_id : s'.namespace_id ≡ s.namespace_id
    run_id : s'.run_id ≡ s.run_id
    scenario_id : s'.scenario_id ≡ s.scenario_id
    spec_hash : s'.spec_hash ≡ s.spec_hash
    dispatch_targets : s'.dispatch_targets ≡ s.dispatch_targets
    submissions : s'.submissions ≡ s.submissions
    tool_calls : s'.tool_calls ≡ s.tool_calls

  recorded-Progress :
      (s s₁ : RunState Value) (t : TriggerEvent Value) (x : Decided J plane)
      → Recording s t s₁
      → DecidedOk s₁ t (length s₁.decisions + 1) x
      → Progressed s t (recorded J plane x)
  unfolding recorded
  recorded-Progress s s₁ t (s₂, d, packets) r h = ground (arith, r, h)

  timed_out-Progress :
      (timeout : Option TimeoutSpec) (s s₁ : RunState Value) (t : TriggerEvent Value)
      (stage : StageSpec Value)
      → Recording s t s₁
      → Ensures
          (λ o. (x : RunState Value × EvaluationResult Value) → o ≡ some x → Progressed s t x)
          (timed_out J plane timeout s₁ t stage)
  unfolding timed_out
  timed_out-Progress none s s₁ t stage r = Ensures-pure _ _ (none_has (Progressed s t))
  timed_out-Progress (some timeout) s s₁ t stage r =
      Ensures-bind _ _ _ _ (Ensures-any _) λ expired _. elim (Bool-cases expired) [
        | inl yes_expired ↦ rw yes_expired (
            Ensures-bind (λ seq. seq ≡ length s₁.decisions + 1) _ _ _
              (Ensures-lift _ _ (next_seq_lem s₁.decisions))
              λ seq e.
                Ensures-bind _ _ _ _ (on_timeout-Decides stage.on_timeout s₁ t stage seq) λ x h.
                  Ensures-pure _ _ (
                    some_has (Progressed s t) _
                      (recorded-Progress s s₁ t x r (subst (λ n. DecidedOk s₁ t n x) e h))))
        | inr not_expired ↦ rw not_expired (Ensures-pure _ _ (none_has (Progressed s t)))
      ]

  gates_logged :
      (s s₁ : RunState Value) (t : TriggerEvent Value) (records : List (GateEvalRecord Value))
      → Recording s t s₁
      → Recording s t (record s₁ { gate_evals = s₁.gate_evals ++ records })
  gates_logged s s₁ t records r = record {
    triggers = r.triggers;
    decisions = r.decisions;
    packets = r.packets;
    tenant_id = r.tenant_id;
    namespace_id = r.namespace_id;
    run_id = r.run_id;
    scenario_id = r.scenario_id;
    spec_hash = r.spec_hash;
    dispatch_targets = r.dispatch_targets;
    submissions = r.submissions;
    tool_calls = r.tool_calls;
  }

  evaluate-Progress :
      (early : Option (RunState Value × EvaluationResult Value)) (s s₁ : RunState Value)
      (t : TriggerEvent Value) (stage : StageSpec Value)
      → Recording s t s₁
      → ((x : RunState Value × EvaluationResult Value) → early ≡ some x → Progressed s t x)
      → Ensures (Progressed s t) (evaluate J plane s₁ t stage early)
  unfolding evaluate
  evaluate-Progress (some x) s s₁ t stage r k = Ensures-pure _ _ (k x refl)
  evaluate-Progress none s s₁ t stage r k = Ensures-bind _ _ _ _ (Ensures-any _) λ records _.
      Ensures-bind _ _ _ _ (decide_from_gate_evals-Decides _ t stage records)
        λ x h. Ensures-pure _ _ (recorded-Progress s _ t x (gates_logged s s₁ t records r) h)

  record_trigger-Recording :
      (s s₁ : RunState Value) (t : TriggerEvent Value)
      → record_trigger s t ≡ ok s₁
      → Recording s t s₁
  unfolding record_trigger
  record_trigger-Recording s s₁ t h =
      let (seq, e, f) = bind-eq-ok (next_seq s.triggers) _ h in
      subst (Recording s t) (ok-injective _ s₁ f) (record {
        triggers =
            ap (λ n. s.triggers ++ record { seq = n; event = t } ∷ [])
              (next_seq_lem s.triggers seq e);
        decisions = refl;
        packets = refl;
        tenant_id = refl;
        namespace_id = refl;
        run_id = refl;
        scenario_id = refl;
        spec_hash = refl;
        dispatch_targets = refl;
        submissions = refl;
        tool_calls = refl;
      })

  handle_timeout-Progress :
      (s s₁ : RunState Value) (t : TriggerEvent Value) (stage : StageSpec Value)
      → Recording s t s₁
      → Ensures
          (λ o. (x : RunState Value × EvaluationResult Value) → o ≡ some x → Progressed s t x)
          (handle_timeout J plane s₁ t stage)
  unfolding handle_timeout
  handle_timeout-Progress s s₁ t stage r = elim (Bool-cases (is_tick t.kind)) [
    | inl ticks ↦ rw ticks (timed_out-Progress stage.timeout s s₁ t stage r)
    | inr other ↦ rw other (Ensures-pure _ _ (none_has (Progressed s t)))
  ]

  pub handle_new_trigger-Progress :
      (s : RunState Value) (t : TriggerEvent Value)
      → Ensures (Progressed s t) (handle_new_trigger J plane s t)
  unfolding handle_new_trigger
  handle_new_trigger-Progress s t =
      Ensures-bind (Recording s t) _ _ _
        (Ensures-lift _ _ (λ s₁ h. record_trigger-Recording s s₁ t h))
        λ s₁ r. Ensures-bind _ _ _ _ (Ensures-any _) λ stage _.
          Ensures-bind _ _ _ _ (handle_timeout-Progress s s₁ t stage r)
            λ early k. evaluate-Progress early s s₁ t stage r k
