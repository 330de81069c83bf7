-- ===== src/Runtime/Engine/Trigger/Replay.antt =====
-- crates/decision-gate-core/src/runtime/engine.rs: a trigger that is delivered again, and a run that is over.
use mathlib.Core.Path.{subst}
use decision_gate.Prelude.{
  ◌≢◌, false, ◌≡◌, refl, sym, ◌∙◌, ap, List, [], ◌∷◌, ◌++◌, Option, none, some, true, Bool-cases,
  inl, inr, length, length-append, find, arith, ◌==◌, string_eq,
}
use decision_gate.Prelude.Outcome.{Outcome, ok, err, ok-injective}
use decision_gate.Prelude.Action.{Action, ◌>>=◌, lift, pure}
use decision_gate.Core.Disclosure.{PacketRecord}
use decision_gate.Core.State.{
  RunState, RunStatus, active, completed, failed, TriggerEvent, DecisionRecord,
}
use decision_gate.Runtime.Json.{Json}
use decision_gate.Runtime.Engine.Types.{ControlPlane, ControlPlaneError, EvaluationResult}
use decision_gate.Runtime.Engine.Helpers.{
  decision_id_of, packets_for_decision, existing_trigger_result, inactive_result,
}
use decision_gate.Runtime.Engine.Trigger.{handle_trigger_internal, is_active, replay_or_handle}
use decision_gate.Runtime.Engine.Trigger.Progress.{Progress, Owned, handle_new_trigger-Progress}
use decision_gate.Runtime.Engine.Trigger.Logs.{
  IsWellFormed, NumberedFrom-append, Issued-append, packets_for_decision-new, get_last?-append,
  find-append,
}

err-ok {ℓ κ} : {E : Type ℓ} {A : Type κ} (e : E) (a : A) → err e ≡ ok a → ⊥
err-ok e a h = cc

module _ (J : Json) {W : Type 0} (plane : ControlPlane J W) where
  open J use {Value}

  Progress-IsWellFormed :
      (s : RunState Value) (t : TriggerEvent Value) (s' : RunState Value)
      (r : EvaluationResult Value)
      → Progress J plane s t s' r
      → IsWellFormed s
      → IsWellFormed s'
  Progress-IsWellFormed s t s' r p h = record {
    numbered = rw p.decisions (
        NumberedFrom-append 0 s.decisions r.decision h.numbered (p.seq_is ∙ omega arith)
          (p.decision_id ∙ ap decision_id_of (omega arith)));
    issued =
        rw (p.decisions, p.packets, length-append s.decisions (r.decision ∷ []))
          (Issued-append (length s.decisions) s.packets r.packets h.issued
            (subst (λ id. Owned id r.packets) p.decision_id p.owned));
  }

  -- The answer of the logs, if there is one.
  abbrev logged :
      RunState Value
      → Outcome ControlPlaneError (EvaluationResult Value)
      → Action ControlPlaneError W (RunState Value × EvaluationResult Value)
  logged s answer = do result ← lift answer; pure (s, result)

  logged-ok :
      (s : RunState Value) (answer : Outcome ControlPlaneError (EvaluationResult Value)) (w : W)
      (x : RunState Value × EvaluationResult Value)
      → (logged s answer w).0 ≡ ok x
      → (x.0 ≡ s) × ((w' : W) → logged s answer w' ≡ (ok x, w'))
  unfolding ◌>>=◌
  logged-ok s (ok result) w x h =
      (sym (ap (λ y. y.0) (ok-injective _ _ h)), λ w'. ap (λ o. (o, w')) h)
  logged-ok s (err e) w x h = absurd (err-ok _ _ h)

  -- How a trigger was answered: from the logs, or by handling it.
  data Answered (s : RunState Value) (t : TriggerEvent Value)
      (x : RunState Value × EvaluationResult Value) : Type 0 where
    from_logs :
        x.0 ≡ s → ((w : W) → handle_trigger_internal J plane s t w ≡ (ok x, w)) → Answered s t x
    handled :
        (t.run_id == s.run_id) ≡ true
        → existing_trigger_result s t ≡ none
        → Progress J plane s t x.0 x.1
        → Answered s t x

  handled_or_replayed :
      (s : RunState Value) (t : TriggerEvent Value) (w : W)
      (x : RunState Value × EvaluationResult Value)
      → is_active s.status ≡ true
      → (t.run_id == s.run_id) ≡ true
      → (known : Option (EvaluationResult Value)) → existing_trigger_result s t ≡ known
      → (replay_or_handle J plane known s t w).0 ≡ ok x
      → Answered s t x
  unfolding handle_trigger_internal replay_or_handle ◌>>=◌
  handled_or_replayed s t w x live same (some result) e h =
      from_logs (sym (ap (λ y. y.0) (ok-injective _ _ h)))
        (λ w'. rw (live, same, e) (ap (λ o. (o, w')) h))
  handled_or_replayed s t w x live same none e h =
      handled same e ((handle_new_trigger-Progress J plane s t).at w x h)

  answered :
      (s : RunState Value) (t : TriggerEvent Value) (w : W)
      (x : RunState Value × EvaluationResult Value)
      → (handle_trigger_internal J plane s t w).0 ≡ ok x
      → Answered s t x
  unfolding handle_trigger_internal ◌>>=◌
  answered s t w x h = elim (Bool-cases (is_active s.status)) [
    | inl live ↦ elim (Bool-cases (t.run_id == s.run_id)) [
      | inl same ↦
          handled_or_replayed s t w x live same (existing_trigger_result s t) refl
            (rw (live, same) at h)
      | inr other ↦ absurd (err-ok _ _ (rw (live, other) at h))
    ]
    | inr inactive ↦
        let k = logged-ok s (inactive_result s) w x (rw inactive at h) in
        from_logs k.0 (λ w'. rw inactive (k.1 w'))
  ]

  issued_packets :
      (s s' : RunState Value) (t : TriggerEvent Value) (r : EvaluationResult Value)
      → IsWellFormed s
      → Progress J plane s t s' r
      → packets_for_decision s' r.decision.decision_id ≡ r.packets
  issued_packets s s' t r h p = rw p.decision_id (
      packets_for_decision-new s s' r.packets h p.packets
        (subst (λ id. Owned id r.packets) p.decision_id p.owned))

  same_result :
      (r : EvaluationResult Value) (packets : List (PacketRecord Value)) (status : RunStatus)
      → packets ≡ r.packets
      → r.status ≡ status
      → ◌≡◌ {A = EvaluationResult Value}
          (record { decision = r.decision; packets = packets; status = status })
          r
  same_result r packets status e k = rw (e, sym k) refl

  find-new :
      (s : RunState Value) (t : TriggerEvent Value) (d : DecisionRecord)
      → existing_trigger_result s t ≡ none
      → d.trigger_id ≡ t.trigger_id
      → find (λ e. e.trigger_id == t.trigger_id) (s.decisions ++ d ∷ []) ≡ some d
  unfolding existing_trigger_result
  find-new s t d h k = find-append t.trigger_id s.decisions d (ground arith) k

  -- Both ways to answer from the logs find the decision that has just been recorded.
  existing-after :
      (s s' : RunState Value) (t : TriggerEvent Value) (r : EvaluationResult Value)
      → IsWellFormed s
      → existing_trigger_result s t ≡ none
      → Progress J plane s t s' r
      → existing_trigger_result s' t ≡ some r
  unfolding existing_trigger_result packets_for_decision
  existing-after s s' t r h e p =
      rw (existing_trigger_result, p.decisions, find-new s t r.decision e p.trigger_id)
        (ap some (same_result r _ _ (issued_packets s s' t r h p) p.status))

  inactive-after :
      (s s' : RunState Value) (t : TriggerEvent Value) (r : EvaluationResult Value)
      → IsWellFormed s
      → Progress J plane s t s' r
      → inactive_result s' ≡ ok r
  unfolding inactive_result packets_for_decision
  inactive-after s s' t r h p =
      rw (p.decisions, get_last?-append s.decisions r.decision)
        (ap ok (same_result r _ _ (issued_packets s s' t r h p) p.status))

  same_run_after :
      (s s' : RunState Value) (t : TriggerEvent Value) (r : EvaluationResult Value)
      → Progress J plane s t s' r
      → (t.run_id == s.run_id) ≡ true
      → (t.run_id == s'.run_id) ≡ true
  same_run_after s s' t r p same = rw p.run_id same

  replayed :
      (s s' : RunState Value) (t : TriggerEvent Value) (r : EvaluationResult Value)
      → IsWellFormed s
      → (t.run_id == s.run_id) ≡ true
      → existing_trigger_result s t ≡ none
      → Progress J plane s t s' r
      → (w : W) → handle_trigger_internal J plane s' t w ≡ (ok (s', r), w)
  unfolding handle_trigger_internal replay_or_handle ◌>>=◌
  replayed s s' t r h same e p w =
      let same_run = same_run_after s s' t r p same in
      elim (Bool-cases (is_active s'.status)) [
        | inl live ↦ rw (live, same_run, existing-after s s' t r h e p) refl
        | inr inactive ↦ rw (inactive, inactive-after s s' t r h p) refl
      ]

  -- A trigger that was handled without an error can be delivered again in any world: the second
  -- delivery returns the same result, leaves the run state and the world as they are, and so asks no
  -- provider and dispatches no packet. This holds also if the first delivery ended the run.
  pub handle_trigger_internal-replay :
      (s s' : RunState Value) (t : TriggerEvent Value) (r : EvaluationResult Value) (w : W)
      → IsWellFormed s
      → (handle_trigger_internal J plane s t w).0 ≡ ok (s', r)
      → (w' : W) → handle_trigger_internal J plane s' t w' ≡ (ok (s', r), w')
  handle_trigger_internal-replay s s' t r w h e w' = elim (answered s t w (s', r) e) [
    | from_logs same again ↦
        subst (λ z. handle_trigger_internal J plane z t w' ≡ (ok (s', r), w')) (sym same) (again w')
    | handled same new p ↦ replayed s s' t r h same new p w'
  ]

  -- A trigger that is handled without an error leaves the logs well-formed: decision n carries the
  -- number n and the identifier made from it, and each packet belongs to a recorded decision.
  pub handle_trigger_internal-IsWellFormed :
      (s s' : RunState Value) (t : TriggerEvent Value) (r : EvaluationResult Value) (w : W)
      → (handle_trigger_internal J plane s t w).0 ≡ ok (s', r)
      → IsWellFormed s
      → IsWellFormed s'
  handle_trigger_internal-IsWellFormed s s' t r w e h = elim (answered s t w (s', r) e) [
    | from_logs same again ↦ subst IsWellFormed (sym same) h
    | handled same new p ↦ Progress-IsWellFormed s t s' r p h
  ]

  not_active : (status : RunStatus) → status ≢ active → is_active status ≡ false
  not_active active h = absurd (h refl)
  not_active completed h = refl
  not_active failed h = refl

  answer_of_logs :
      (s : RunState Value) (t : TriggerEvent Value) (r : EvaluationResult Value) (w w' : W)
      → is_active s.status ≡ false
      → (handle_trigger_internal J plane s t w).0 ≡ ok (s, r)
      → (t' : TriggerEvent Value) → handle_trigger_internal J plane s t' w' ≡ (ok (s, r), w')
  unfolding handle_trigger_internal ◌>>=◌
  answer_of_logs s t r w w' over h t' =
      rw over ((logged-ok s (inactive_result s) w (s, r) (rw over at h)).1 w')

  answer_of_end :
      (s s' : RunState Value) (t t' : TriggerEvent Value) (r : EvaluationResult Value) (w' : W)
      → is_active s'.status ≡ false
      → IsWellFormed s
      → Progress J plane s t s' r
      → handle_trigger_internal J plane s' t' w' ≡ (ok (s', r), w')
  unfolding handle_trigger_internal ◌>>=◌
  answer_of_end s s' t t' r w' over h p = rw (over, inactive-after s s' t r h p) refl

  -- Where a trigger leaves the run not active, its result is the answer to every trigger that comes after
  -- it, whichever run and whatever earlier decision that trigger names, in any world: the decision that
  -- ended the run and the packets and the status that came with it. The run and the world stay as they
  -- are. The logs before the first trigger must be well-formed.
  pub handle_trigger_internal-inactive :
      (s s' : RunState Value) (t t' : TriggerEvent Value) (r : EvaluationResult Value) (w w' : W)
      → IsWellFormed s
      → (handle_trigger_internal J plane s t w).0 ≡ ok (s', r)
      → s'.status ≢ active
      → handle_trigger_internal J plane s' t' w' ≡ (ok (s', r), w')
  handle_trigger_internal-inactive s s' t t' r w w' h e over = elim (answered s t w (s', r) e) [
    | from_logs same again ↦
        answer_of_logs s' t r w w' (not_active s'.status over)
          (ap (λ z. z.0)
            (subst (λ z. handle_trigger_internal J plane z t w ≡ (ok (s', r), w)) (sym same)
              (again w)))
          t'
    | handled same new p ↦ answer_of_end s s' t t' r w' (not_active s'.status over) h p
  ]
