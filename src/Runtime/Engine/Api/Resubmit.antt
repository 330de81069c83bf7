-- ===== src/Runtime/Engine/Api/Resubmit.antt =====
-- crates/decision-gate-core/src/runtime/engine.rs: a submission that is sent again.
use mathlib.Core.Path.{subst}
use text.Mathlib.TextEquality.{eq_iff}
use decision_gate.Prelude.{
  ℕ, ◌≡◌, refl, sym, ap, ◌∙◌, ◌⊎◌, inl, inr, String, List, [], ◌∷◌, ◌++◌, Option, none, some, true,
  ◌&&◌, Bool-cases, nat_beq_iff, find, ◌==◌, string_eq, PartialEq,
}
use decision_gate.Prelude.Distinct.{same}
use decision_gate.Prelude.Outcome.{Outcome, ok, err, ok-injective}
use decision_gate.Prelude.Action.{Action, lift, ◌>>=◌, pure}
use decision_gate.Prelude.Action.Ensures.{Ensures, Ensures-bind, Ensures-any, Ensures-raise}
use decision_gate.Prelude.Action.Runs.{parts, bind-of_ok, bind-of_err}
use decision_gate.Core.Hashing.{HashDigest, HashAlgorithm, sha256}
use decision_gate.Core.Disclosure.{PacketPayload}
use decision_gate.Core.State.{RunState, SubmissionRecord}
use decision_gate.Runtime.Json.{Json}
use decision_gate.Runtime.Interfaces.{RunStateStore, IsLawful, StoreError}
use decision_gate.Runtime.Engine.Types.{
  ControlPlane, ControlPlaneError, store, SubmitRequest, SubmitResult, submit_request,
  submit_result,
}
use decision_gate.Runtime.Engine.Evidence.{payload_hash}
use decision_gate.Runtime.Engine.Api.{
  scenario_submit, submit_to, accept, refuse, submission_of, load_run, found, log_and_save,
  payload_beq, bytes_beq, option_beq, content_beq, algorithm_beq,
}
use decision_gate.Runtime.Engine.Api.Stored.{Saved, logging, log_and_save-Saved, log_and_save-again}

bytes_beq-same : (bs : List ℕ) → bytes_beq bs bs ≡ true
unfolding bytes_beq
bytes_beq-same [] = refl
bytes_beq-same (b ∷ bs) = rw ((nat_beq_iff b b).1 refl) (bytes_beq-same bs)

option_beq-same : (o : Option String) → option_beq o o ≡ true
unfolding option_beq
option_beq-same none = refl
option_beq-same (some s) = same s

algorithm_beq-same : (a : HashAlgorithm) → algorithm_beq a a ≡ true
unfolding algorithm_beq
algorithm_beq-same sha256 = refl

payload_beq-same : (J : Json) (p : PacketPayload J.Value) → payload_beq J p p ≡ true
unfolding payload_beq content_beq
payload_beq-same J (PacketPayload.json v) = (PartialEq.eq_lem J.value_eq v v).1 refl
payload_beq-same J (PacketPayload.bytes bs) = bytes_beq-same bs
payload_beq-same J (PacketPayload.external c) =
    rw (same c.uri, algorithm_beq-same c.content_hash.algorithm, same c.content_hash.value)
      (option_beq-same c.encryption)

find-new :
    {V : Type 0} (id : String) (xs : List (SubmissionRecord V)) (x : SubmissionRecord V)
    → find (λ s. s.submission_id == id) xs ≡ none
    → x.submission_id ≡ id
    → find (λ s. s.submission_id == id) (xs ++ x ∷ []) ≡ some x
find-new id [] x h e = rw ((eq_iff x.submission_id id).1 e) refl
find-new id (y ∷ xs) x h e = elim (Bool-cases (y.submission_id == id)) [
  | inl at ↦ absurd (some≢none y (rw at at h))
  | inr off ↦ rw off (find-new id xs x (rw off at h) e)
]
  where
    some≢none : {V : Type 0} (y : SubmissionRecord V) → some y ≡ none → ⊥
    some≢none y h = cc

module _ (J : Json) {W : Type 0} (plane : ControlPlane J W) (request : SubmitRequest J.Value) where
  open J use {Value}

  -- The request matches the record that it finds in the state.
  abbrev Held : RunState Value → SubmissionRecord Value → Type 0
  Held state submission =
      (find (λ s. s.submission_id == request.submission_id) state.submissions ≡ some submission)
      × ((submission.content_type == request.content_type
            && payload_beq J submission.payload request.payload)
          ≡ true)

  abbrev answer : SubmissionRecord Value → SubmitResult Value
  answer submission = record { submitted = submission }

  abbrev logs : SubmissionRecord Value → RunState Value → Action ControlPlaneError W (Unit {0})
  logs submission state =
      log_and_save J plane state "scenario.submit" (submit_request request)
        (submit_result (answer submission)) request.submitted_at request.correlation_id none

  -- What a submission that is answered with `submission` leaves: the last thing is the save of a run
  -- that has the submission.
  record Answered (state : RunState Value) (w' : W) (submission : SubmissionRecord Value)
      : Type 0 where
    kept : RunState Value
    held : Held kept submission
    tenant_id : kept.tenant_id ≡ state.tenant_id
    namespace_id : kept.namespace_id ≡ state.namespace_id
    run_id : kept.run_id ≡ state.run_id
    before : W
    logged : (logs submission kept before).0 ≡ ok tt
    saved : Saved J plane kept before w'

  answered_by :
      (state state' : RunState Value) (submission : SubmissionRecord Value) (w : W)
      (r : SubmitResult Value)
      → Held state' submission
      → state'.tenant_id ≡ state.tenant_id
      → state'.namespace_id ≡ state.namespace_id
      → state'.run_id ≡ state.run_id
      → (accept J plane state' request submission w).0 ≡ ok r
      → Answered state (accept J plane state' request submission w).1 r.submitted
  unfolding accept ◌>>=◌
  answered_by state state' submission w r held t n i h =
      let p = parts (logs submission state') (λ _. pure (answer submission)) w r h in
      subst (λ x. Answered state (accept J plane state' request submission w).1 x.submitted)
        (ok-injective (answer submission) r p.second)
        (record {
          kept = state';
          held = held;
          tenant_id = t;
          namespace_id = n;
          run_id = i;
          before = w;
          logged = p.first;
          saved = subst (Saved J plane state' w) (sym p.state) (
              log_and_save-Saved J plane "scenario.submit" (submit_request request)
                (submit_result (answer submission)) request.submitted_at request.correlation_id none
                state' w p.first);
        })

  refuse-fails :
      (state : RunState Value)
      → Ensures (λ (r : SubmitResult Value). ⊥) (refuse J plane state request)
  unfolding refuse
  refuse-fails state = Ensures-bind _ _ _ _ (Ensures-any _) λ u _. Ensures-raise _ _

  abbrev submitted : RunState Value → HashDigest → RunState Value
  unfolding submission_of
  submitted state content_hash = record state {
    submissions = state.submissions ++ submission_of J plane request content_hash ∷ [];
  }

  submit_to-Answered :
      (o : Option (SubmissionRecord Value)) (state : RunState Value) (w : W)
      (r : SubmitResult Value)
      → find (λ s. s.submission_id == request.submission_id) state.submissions ≡ o
      → (submit_to J plane o state request w).0 ≡ ok r
      → Answered state (submit_to J plane o state request w).1 r.submitted
  unfolding submit_to submission_of submitted
  submit_to-Answered (some existing) state w r e h =
      elim (Bool-cases (
        existing.content_type == request.content_type
        && payload_beq J existing.payload request.payload)) [
          | inl equal ↦
              rw equal
                (answered_by state state existing w r (e, equal) refl refl refl (rw equal at h))
          | inr other ↦ absurd ((refuse-fails state).at w r (rw other at h))
        ]
  submit_to-Answered none state w r e h =
      let p =
        parts (lift (payload_hash J plane request.payload))
          (λ content_hash.
            accept J plane (submitted state content_hash) request
              (submission_of J plane request content_hash))
          w r h in
      subst (λ w'. Answered state w' r.submitted) (sym p.state)
        (answered_by state (submitted state p.value) (submission_of J plane request p.value) _ r
          (
            find-new request.submission_id state.submissions (submission_of J plane request p.value)
                e refl,
            rw (same request.content_type) (payload_beq-same J request.payload),
          )
          refl refl refl p.second)

  -- A second log of the same answer, from a state that has the submission.
  accept-again :
      (kept kept' : RunState Value) (submission : SubmissionRecord Value) (before w' : W)
      → (logs submission kept before).0 ≡ ok tt
      → ((accept J plane kept' request submission w').0 ≡ ok (answer submission))
        ⊎ ((e : StoreError) × ((accept J plane kept' request submission w').0 ≡ err (store e)))
  unfolding accept pure
  accept-again kept kept' submission before w' l =
      elim (log_and_save-again J plane "scenario.submit" (submit_request request)
        (submit_result (answer submission)) request.submitted_at request.correlation_id none kept
        kept' before w' l) [
          | inl k ↦ inl (
              ap (λ x. x.0)
                (bind-of_ok (logs submission kept') (λ _. pure (answer submission)) w' tt k))
          | inr (e, k) ↦ inr (
            e,
            bind-of_err (logs submission kept') (λ _. pure (answer submission)) w' (store e) k,
          )
        ]

  -- The submission as it goes on from the loaded run.
  submits :
      (state : RunState Value) (w : W)
      → (RunStateStore.load plane.store request.tenant_id request.namespace_id request.run_id w).0
        ≡ ok (some state)
      → scenario_submit J plane request w
        ≡ submit_to J plane
            (find (λ s. s.submission_id == request.submission_id) state.submissions)
            state
            request
            (RunStateStore.load plane.store request.tenant_id request.namespace_id request.run_id
              w).1
  unfolding scenario_submit load_run found ◌>>=◌
  submits state w e = rw e refl

  abbrev loading : W → Outcome StoreError (Option (RunState Value))
  loading w =
      (RunStateStore.load plane.store request.tenant_id request.namespace_id request.run_id w).0

  reloaded :
      (lawful : IsLawful plane.store) (state : RunState Value) (w' : W)
      (submission : SubmissionRecord Value) (a : Answered state w' submission)
      → state.tenant_id ≡ request.tenant_id
      → state.namespace_id ≡ request.namespace_id
      → state.run_id ≡ request.run_id
      → loading w' ≡ ok (some (logging J plane a.kept a.saved.entry))
  reloaded lawful state w' submission a t n i =
      rw (a.saved.world, ← t, ← n, ← i, ← a.tenant_id, ← a.namespace_id, ← a.run_id)
        (lawful.load_saved (logging J plane a.kept a.saved.entry) a.before a.saved.saved)

  -- The answer from a run that has the submission.
  answers_again :
      (kept kept' : RunState Value) (submission : SubmissionRecord Value) (before w' : W)
      → Held kept' submission
      → (logs submission kept before).0 ≡ ok tt
      → loading w' ≡ ok (some kept')
      → ((scenario_submit J plane request w').0 ≡ ok (answer submission))
        ⊎ ((e : StoreError) × ((scenario_submit J plane request w').0 ≡ err (store e)))
  unfolding submit_to
  answers_again kept kept' submission before w' held l e =
      rw (submits kept' w' e, held.0, held.1) (accept-again kept kept' submission before _ l)

  -- Over a lawful store, a submission that was answered can be sent again: it is answered with the same
  -- record, unless the store fails to save. This holds for a run that the store keeps under its own
  -- identifiers, and whatever else was submitted before.
  pub scenario_submit-again :
      (state : RunState Value) (w : W) (r : SubmitResult Value)
      → IsLawful plane.store
      → loading w ≡ ok (some state)
      → state.tenant_id ≡ request.tenant_id
      → state.namespace_id ≡ request.namespace_id
      → state.run_id ≡ request.run_id
      → (scenario_submit J plane request w).0 ≡ ok r
      → ((scenario_submit J plane request (scenario_submit J plane request w).1).0 ≡ ok r)
        ⊎ ((e : StoreError) × ((scenario_submit J plane request
                (scenario_submit J plane request w).1).0
              ≡ err (store e)))
  scenario_submit-again state w r lawful loaded t n i h =
      let first = submits state w loaded in
      let a =
        subst (λ w'. Answered state w' r.submitted) (sym (ap (λ x. x.1) first))
          (submit_to-Answered _ state _ r refl (sym (ap (λ x. x.0) first) ∙ h)) in
      answers_again a.kept (logging J plane a.kept a.saved.entry) r.submitted a.before _ a.held
        a.logged (reloaded lawful state _ r.submitted a t n i)
