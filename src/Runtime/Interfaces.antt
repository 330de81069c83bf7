-- ===== src/Runtime/Interfaces.antt =====
-- crates/decision-gate-core/src/interfaces/mod.rs: the traits that the engine is generic over. Each
-- call may read and change the outside world `W`, whether it succeeds or not.
use decision_gate.Prelude.{ℕ, String, Option, some, ◌≡◌}
use decision_gate.Prelude.Outcome.{ok}
use decision_gate.Core.DataShape.{DataShapeRecord, DataShapePage}
use decision_gate.Prelude.Action.{Action}
use decision_gate.Core.Time.{Timestamp}
use decision_gate.Core.Evidence.{EvidenceQuery, EvidenceResult, ProviderMissingError}
use decision_gate.Core.Disclosure.{DispatchTarget, PacketEnvelope, PacketPayload, DispatchReceipt}
use decision_gate.Core.Spec.{ScenarioSpec}
use decision_gate.Core.State.{RunState}

pub record EvidenceContext : Type 0 where
  pub tenant_id : ℕ
  pub namespace_id : ℕ
  pub run_id : String
  pub scenario_id : String
  pub stage_id : String
  pub trigger_id : String
  pub trigger_time : Timestamp
  pub correlation_id : Option String

pub data EvidenceError : Type 0 where
  provider : String → EvidenceError

pub data DispatchError : Type 0 where
  dispatch_failed : String → DispatchError

pub data StoreError : Type 0 where
  io corrupt version_mismatch invalid store : String → StoreError

pub data PolicyDecision : Type 0 where
  permit deny : PolicyDecision

pub data PolicyError : Type 0 where
  decision_failed : String → PolicyError

pub record EvidenceProvider (V W : Type 0) : Type 0 where
  pub query : EvidenceQuery V → EvidenceContext → Action EvidenceError W (EvidenceResult V)
  pub validate_providers : ScenarioSpec V → Action ProviderMissingError W (Unit {0})

pub record Dispatcher (V W : Type 0) : Type 0 where
  pub dispatch :
      DispatchTarget → PacketEnvelope → PacketPayload V → Action DispatchError W DispatchReceipt

pub record RunStateStore (V W : Type 0) : Type 0 where
  pub load : ℕ → ℕ → String → Action StoreError W (Option (RunState V))
  pub save : RunState V → Action StoreError W (Unit {0})

pub record PolicyDecider (V W : Type 0) : Type 0 where
  pub authorize :
      DispatchTarget → PacketEnvelope → PacketPayload V → Action PolicyError W PolicyDecision

pub data DataShapeRegistryError : Type 0 where
  io invalid conflict access : String → DataShapeRegistryError

pub record DataShapeRegistry (V W : Type 0) : Type 0 where
  pub register : DataShapeRecord V → Action DataShapeRegistryError W (Unit {0})
  pub get : ℕ → ℕ → String → String → Action DataShapeRegistryError W (Option (DataShapeRecord V))
  pub list : ℕ → ℕ → Option String → ℕ → Action DataShapeRegistryError W (DataShapePage V)

-- What the engine relies on in a store: `load` only reads, a saved run is loaded as it was saved, and
-- saving a run leaves every other run alone.
pub record IsLawful {V W : Type 0} (store : RunStateStore V W) : Type 0 where
  pub load_reads : (t n : ℕ) (r : String) (w : W) → (store.load t n r w).1 ≡ w
  pub load_saved :
      (s : RunState V) (w : W)
      → (store.save s w).0 ≡ ok tt
      → (store.load s.tenant_id s.namespace_id s.run_id (store.save s w).1).0 ≡ ok (some s)
  pub load_other :
      (s : RunState V) (w : W) (t n : ℕ) (r : String)
      → ¬ ((s.tenant_id ≡ t) × (s.namespace_id ≡ n) × (s.run_id ≡ r))
      → (store.load t n r (store.save s w).1).0 ≡ (store.load t n r w).0
