-- ===== src/Runtime/Engine/Api/Stored.antt =====
-- crates/decision-gate-core/src/runtime/engine.rs: what the operations leave in a lawful store.
use decision_gate.Prelude.{◌+◌, ◌≡◌, refl, ap, ◌⊎◌, inl, inr, String, [], ◌∷◌, ◌++◌, Option, length}
use decision_gate.Prelude.Outcome.{Outcome, ok, err, ok-injective}
use decision_gate.Prelude.Action.{Action, lift, ◌>>=◌}
use decision_gate.Prelude.Action.Runs.{Parts, parts}
use decision_gate.Core.Hashing.{HashDigest}
use decision_gate.Core.Time.{Timestamp}
use decision_gate.Core.State.{RunState, ToolCallRecord, ToolCallError}
use decision_gate.Runtime.Json.{Json}
use decision_gate.Runtime.Interfaces.{RunStateStore, StoreError}
use decision_gate.Runtime.Engine.Types.{ControlPlane, ControlPlaneError, Document, store}
use decision_gate.Runtime.Engine.Helpers.{Fallible, call_id_of}
use decision_gate.Runtime.Engine.Trigger.Packets.{wrap, map_err}
use decision_gate.Runtime.Engine.Api.{build_tool_call_record, document_hash, log_and_save}

pub mapped-ok {ℓ κ ξ} :
    {E : Type ℓ} {F : Type κ} {A : Type ξ} (f : E → F) (r : Outcome E A) (a : A)
    → map_err f r ≡ ok a
    → r ≡ ok a
mapped-ok f (ok b) a h = ap ok (ok-injective b a h)
mapped-ok f (err e) a h = cc

-- A call of the store returns, or its error is the answer.
answers :
    (r : Outcome StoreError (Unit {0}))
    → (map_err store r ≡ ok tt)
      ⊎ ((e : StoreError) × (r ≡ err e) × (map_err store r ≡ err (store e)))
answers (ok u) = inl refl
answers (err e) = inr (e, refl, refl)

module _ (J : Json) {W : Type 0} (plane : ControlPlane J W) where
  open J use {Value}

  abbrev pub save : RunState Value → Action StoreError W (Unit {0})
  save = RunStateStore.save plane.store

  abbrev pub logging : RunState Value → ToolCallRecord → RunState Value
  logging state entry = record state { tool_calls = state.tool_calls ++ entry ∷ [] }

  -- The call was logged in `state`, and the result was saved last.
  pub record Saved (state : RunState Value) (w w' : W) : Type 0 where
    pub entry : ToolCallRecord
    pub saved : (save (logging state entry) w).0 ≡ ok tt
    pub world : w' ≡ (save (logging state entry) w).1

  module _ (method : String) (request response : Document Value) (called_at : Timestamp)
      (correlation_id : Option String) (error : Option ToolCallError) where
    abbrev entry_of : String → Action ControlPlaneError W ToolCallRecord
    entry_of id =
        lift
          (build_tool_call_record J plane method request response called_at id correlation_id error)

    abbrev logs : RunState Value → Action ControlPlaneError W (Unit {0})
    logs state = log_and_save J plane state method request response called_at correlation_id error

    abbrev split :
        (state : RunState Value) (w : W)
        → (logs state w).0 ≡ ok tt
        → Parts
            (entry_of (call_id_of (length state.tool_calls + 1)))
            (λ entry. wrap store (save (logging state entry)))
            w
            tt
    unfolding log_and_save
    split state w h =
        parts (entry_of (call_id_of (length state.tool_calls + 1)))
          (λ entry. wrap store (save (logging state entry))) w tt h

    pub log_and_save-Saved :
        (state : RunState Value) (w : W) → (logs state w).0 ≡ ok tt → Saved state w (logs state w).1
    unfolding log_and_save ◌>>=◌ split
    log_and_save-Saved state w h =
        let p = split state w h in
        record {
          entry = p.value;
          saved = mapped-ok store (save (logging state p.value) w).0 tt p.second;
          world = p.state;
        }

    -- The entry depends on the call's number only in its identifier.
    renumbered :
        (id id' : String) (entry : ToolCallRecord)
        → build_tool_call_record J plane method request response called_at id correlation_id error
          ≡ ok entry
        → (entry' : ToolCallRecord) × (build_tool_call_record J plane method request response
              called_at id' correlation_id error
            ≡ ok entry')
    unfolding build_tool_call_record
    renumbered id id' entry h =
        both (document_hash J plane request) (document_hash J plane response) h
      where
        build : String → Fallible HashDigest → Fallible HashDigest → Fallible ToolCallRecord
        build call_id request_hash response_hash = elim request_hash [
          | err e ↦ err e
          | ok request_hash ↦ elim response_hash [
            | err e ↦ err e
            | ok response_hash ↦ ok (record {
              call_id = call_id;
              method = method;
              request_hash = request_hash;
              response_hash = response_hash;
              called_at = called_at;
              correlation_id = correlation_id;
              error = error;
            })
          ]
        ]

        both :
            (a b : Fallible HashDigest)
            → build id a b ≡ ok entry
            → (entry' : ToolCallRecord) × (build id' a b ≡ ok entry')
        both (ok a) (ok b) h = (_, refl)
        both (ok a) (err e) h = cc
        both (err e) b h = cc

    -- A call with the same documents that was logged once is logged again, unless the store refuses.
    pub log_and_save-again :
        (state state' : RunState Value) (w w' : W)
        → (logs state w).0 ≡ ok tt
        → ((logs state' w').0 ≡ ok tt) ⊎ ((e : StoreError) × ((logs state' w').0 ≡ err (store e)))
    unfolding log_and_save ◌>>=◌ split
    log_and_save-again state state' w w' h =
        let p = split state w h in
        let (entry, e) =
          renumbered (call_id_of (length state.tool_calls + 1))
            (call_id_of (length state'.tool_calls + 1)) p.value p.first in
        elim (answers (save (logging state' entry) w').0) [
          | inl k ↦ inl (rw e k)
          | inr (x, _, k) ↦ inr (x, rw e k)
        ]
