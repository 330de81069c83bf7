-- ===== src/Runtime/Engine/Trigger/Order.antt =====
-- The order in which the conditions are evaluated.
use mathlib.Core.Path.{subst}
use mathlib.Core.List.{Permᴰ}
use mathlib.Core.List.Permᴰ
use decision_gate.Prelude.{◌≡◌, refl, ap, String, List, [], ◌∷◌, map}
use decision_gate.Prelude.Sorting.{sort_by-Perm}
use decision_gate.Core.Hashing.{HashAlgorithm, Codec}
use decision_gate.Core.Spec.{ConditionSpec}
use decision_gate.Runtime.Engine.Types.{ConditionEvalOrder, spec_order, deterministic_shuffle}
use decision_gate.Runtime.Engine.Trigger.Conditions.{
  reorder_condition_specs, condition_shuffle_key, by_key,
}

module _ {D : Type 0} (codec : Codec D) {V : Type 0} where
  unkeyed :
      (key : ConditionSpec V → String) (specs : List (ConditionSpec V))
      → map (λ (keyed : String × ConditionSpec V). keyed.1) (map (λ spec. (key spec, spec)) specs)
        ≡ specs
  unkeyed key [] = refl
  unkeyed key (spec ∷ specs) = ap (λ l. spec ∷ l) (unkeyed key specs)

  -- The shuffle changes the order of the conditions and nothing else, for any seed and any digest: none is
  -- lost, added or asked for twice.
  pub reorder_condition_specs-Perm :
      (specs : List (ConditionSpec V)) (order : ConditionEvalOrder) (algorithm : HashAlgorithm)
      → Permᴰ (reorder_condition_specs codec specs order algorithm) specs
  unfolding reorder_condition_specs
  reorder_condition_specs-Perm specs spec_order algorithm = Permᴰ.refl specs
  reorder_condition_specs-Perm specs (deterministic_shuffle seed) algorithm =
      subst
        (λ l. Permᴰ (reorder_condition_specs codec specs (deterministic_shuffle seed) algorithm) l)
        (unkeyed (λ spec. condition_shuffle_key codec seed algorithm spec.condition_id) specs)
        (Permᴰ.map (λ (keyed : String × ConditionSpec V). keyed.1) (sort_by-Perm by_key _))
