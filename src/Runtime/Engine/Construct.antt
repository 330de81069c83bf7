-- ===== src/Runtime/Engine/Construct.antt =====
-- crates/decision-gate-core/src/runtime/engine.rs: `ControlPlane::new`.
use mathlib.Core.Path.{subst}
use decision_gate.Prelude.{String, Option, ◌≡◌, refl, ap}
use decision_gate.Prelude.Outcome.{Outcome, ok, err, ok-injective}
use decision_gate.Core.Hashing.{HashError, Codec}
use decision_gate.Core.Spec.{ScenarioSpec}
use decision_gate.Core.Spec.Validate.{Checked, validate}
use decision_gate.Core.Spec.Validate.Valid.{IsValid, validate_iff}
use decision_gate.Runtime.Json.{Json}
use decision_gate.Runtime.Interfaces.{EvidenceProvider, Dispatcher, RunStateStore, PolicyDecider}
use decision_gate.Runtime.Engine.Types.{
  ControlPlane, ControlPlaneConfig, ControlPlaneError, invalid_spec, Document,
}

-- `validate().map_err(InvalidSpec)?`
abbrev admitted {ℓ} : {A : Type ℓ} → Checked → A → Outcome ControlPlaneError A
admitted (ok _) a = ok a
admitted (err e) a = err (invalid_spec e)

module _ (J : Json) {W : Type 0} where
  open J use {Value}

  -- The last three arguments are what the repository does not define.
  unfoldable pub new :
      ScenarioSpec Value
      → EvidenceProvider Value W
      → Dispatcher Value W
      → RunStateStore Value W
      → Option (PolicyDecider Value W)
      → ControlPlaneConfig
      → Codec (Document Value)
      → (ControlPlaneError → String)
      → (HashError → String)
      → Outcome ControlPlaneError (ControlPlane J W)
  new spec evidence dispatcher store policy config codec error_text hash_error_text =
      admitted (validate spec) (record {
        spec = spec;
        evidence = evidence;
        dispatcher = dispatcher;
        store = store;
        policy = policy;
        config = config;
        codec = codec;
        error_text = error_text;
        hash_error_text = hash_error_text;
      })

admitted-ok {ℓ} : {A : Type ℓ} (c : Checked) (a b : A) → admitted c a ≡ ok b → (c ≡ ok tt) × (a ≡ b)
admitted-ok (ok u) a b h = (refl, ok-injective a b h)
admitted-ok (err e) a b h = cc

module _ (J : Json) {W : Type 0} (spec : ScenarioSpec J.Value)
    (evidence : EvidenceProvider J.Value W) (dispatcher : Dispatcher J.Value W)
    (store : RunStateStore J.Value W) (policy : Option (PolicyDecider J.Value W))
    (config : ControlPlaneConfig) (codec : Codec (Document J.Value))
    (error_text : ControlPlaneError → String) (hash_error_text : HashError → String)
    (plane : ControlPlane J W) where
  pub new-IsValid :
      new J spec evidence dispatcher store policy config codec error_text hash_error_text ≡ ok plane
      → IsValid plane.spec
  unfolding new
  new-IsValid h =
      let (valid, e) = admitted-ok (validate spec) _ plane h in
      subst IsValid (ap ControlPlane.spec e) ((validate_iff spec).0 valid)
