-- ===== src/Runtime/Store/Registry/Kept.antt =====
-- crates/decision-gate-core/src/runtime/store.rs: what the registry keeps when records are registered.
use decision_gate.Prelude.{
  ℕ, ◌≡◌, refl, sym, ap, ◌∙◌, String, List, Option, none, some, Bool, true, false, Bool-cases, inl,
  inr, length, ltb, if◌then◌else◌,
}
use decision_gate.Prelude.Map.{lookup, insert, lookup-insert, lookup-insert_other}
use decision_gate.Prelude.Outcome.{Outcome, ok, err, ok-injective}
use decision_gate.Core.DataShape.{DataShapeRecord}
use decision_gate.Runtime.Interfaces.{DataShapeRegistryError}
use decision_gate.Runtime.Store.Registry.{
  Serde, schema_key, key_of, InMemoryDataShapeRegistry, is_full, Fallible, insert_absent, too_large,
  poisoned_error, stored, sized, under_lock, register, get,
}

err-ok {ℓ κ} : {E : Type ℓ} {A : Type κ} (e : E) (a : A) → ◌≡◌ {A = Outcome E A} (err e) (ok a) → ⊥
err-ok e a h = cc

some≢none {ℓ} : {A : Type ℓ} (a : A) → some a ≡ none → ⊥
some≢none a h = cc

module _ {V : Type 0} where
  -- What a registration did.
  data Registered (r : DataShapeRecord V) (registry : InMemoryDataShapeRegistry V)
      (x : Outcome DataShapeRegistryError (Unit {0}) × InMemoryDataShapeRegistry V) : Type 0 where
    rejected : (e : DataShapeRegistryError) → x ≡ (err e, registry) → Registered r registry x
    added :
        registry.poisoned ≡ false
        → lookup registry.records (key_of r) ≡ none
        → is_full registry.max_entries (length registry.records) ≡ false
        → x ≡ (ok tt, record registry { records = insert (key_of r) r registry.records })
        → Registered r registry x

  Attempt :
      DataShapeRecord V
      → InMemoryDataShapeRegistry V
      → Fallible (InMemoryDataShapeRegistry V)
      → Type 0
  Attempt r registry o = Registered r registry (stored registry o)

  absent_lem :
      (o : Option (DataShapeRecord V)) (r : DataShapeRecord V)
      (registry : InMemoryDataShapeRegistry V)
      → registry.poisoned ≡ false
      → lookup registry.records (key_of r) ≡ o
      → Attempt r registry (insert_absent o r registry)
  unfolding insert_absent Attempt
  absent_lem (some known) r registry open_lock e =
      rejected (DataShapeRegistryError.conflict "schema already registered") refl
  absent_lem none r registry open_lock e =
      elim (Bool-cases (is_full registry.max_entries (length registry.records))) [
        | inl full ↦
            rw full (
              rejected (DataShapeRegistryError.invalid "schema registry max entries exceeded") refl)
        | inr room ↦ rw room (added open_lock e room refl)
      ]

  locked_lem :
      (b : Bool) (r : DataShapeRecord V) (registry : InMemoryDataShapeRegistry V)
      → registry.poisoned ≡ b
      → Attempt r registry (
          if b
          then err poisoned_error
          else insert_absent (lookup registry.records (key_of r)) r registry)
  unfolding Attempt
  locked_lem true r registry e = rejected poisoned_error refl
  locked_lem false r registry e = absent_lem (lookup registry.records (key_of r)) r registry e refl

  sized_lem :
      (o : Outcome String (List ℕ)) (r : DataShapeRecord V) (registry : InMemoryDataShapeRegistry V)
      → Attempt r registry (sized o r registry)
  unfolding sized Attempt
  sized_lem (err e) r registry = rejected (DataShapeRegistryError.invalid e) refl
  sized_lem (ok bytes) r registry =
      elim (Bool-cases (ltb registry.max_schema_bytes (length bytes))) [
        | inl large ↦ rw large (rejected (too_large (length bytes) registry.max_schema_bytes) refl)
        | inr fits ↦ rw fits (locked_lem registry.poisoned r registry refl)
      ]

  registers :
      (serde : Serde V) (r : DataShapeRecord V) (registry : InMemoryDataShapeRegistry V)
      → Registered r registry (register serde r registry)
  unfolding register Attempt
  registers serde r registry = sized_lem (serde.to_vec r.schema) r registry

  get_lem :
      (tenant_id namespace_id : ℕ) (schema_id version : String)
      (registry : InMemoryDataShapeRegistry V)
      → registry.poisoned ≡ false
      → (get tenant_id namespace_id schema_id version registry).0
        ≡ ok (lookup registry.records (schema_key tenant_id namespace_id schema_id version))
  unfolding get under_lock
  get_lem tenant_id namespace_id schema_id version registry h =
      ap
        (λ b.
          (under_lock b registry
            (ok (lookup registry.records (schema_key tenant_id namespace_id schema_id version)))).0)
        h

  abbrev adding : DataShapeRecord V → InMemoryDataShapeRegistry V → InMemoryDataShapeRegistry V
  adding r registry = record registry { records = insert (key_of r) r registry.records }

  -- Records are immutable: what the registry has under an identity, it has after every attempt to
  -- register a record, accepted or not.
  pub register-Immutable :
      (serde : Serde V) (r known : DataShapeRecord V) (registry : InMemoryDataShapeRegistry V)
      (tenant_id namespace_id : ℕ) (schema_id version : String)
      → (get tenant_id namespace_id schema_id version registry).0 ≡ ok (some known)
      → (get tenant_id namespace_id schema_id version (register serde r registry).1).0
        ≡ ok (some known)
  register-Immutable serde r known registry tenant_id namespace_id schema_id version h =
      elim (registers serde r registry) [
        | rejected e p ↦ rw p h
        | added open_lock fresh room p ↦
            let key = schema_key tenant_id namespace_id schema_id version in
            let here =
              ok-injective _ _
                (sym (get_lem tenant_id namespace_id schema_id version registry open_lock) ∙ h) in
            rw p (
              get_lem tenant_id namespace_id schema_id version (adding r registry) open_lock
              ∙ ap ok (
                  lookup-insert_other (key_of r) key r registry.records
                    (λ e. some≢none known (sym here ∙ ap (lookup registry.records) (sym e) ∙ fresh))
                  ∙ here))
      ]

  -- A record that was registered is read back under its identity, and no other record can be
  -- registered under that identity any more: the registry then answers an error and stays as it is.
  pub register-get :
      (serde : Serde V) (r other : DataShapeRecord V) (registry : InMemoryDataShapeRegistry V)
      → (register serde r registry).0 ≡ ok tt
      → key_of other ≡ key_of r
      → ((get r.tenant_id r.namespace_id r.schema_id r.version (register serde r registry).1).0
          ≡ ok (some r))
        × ((e : DataShapeRegistryError) × (register serde other (register serde r registry).1
              ≡ (err e, (register serde r registry).1)))
  register-get serde r other registry h k = elim (registers serde r registry) [
    | rejected e p ↦ absurd (err-ok e tt (sym (ap (λ x. x.0) p) ∙ h))
    | added open_lock fresh room p ↦ rw p (
      get_lem r.tenant_id r.namespace_id r.schema_id r.version (adding r registry) open_lock
          ∙ ap ok (lookup-insert (key_of r) r registry.records),
      elim (registers serde other (adding r registry)) [
        | rejected e q ↦ (e, q)
        | added _ absent _ _ ↦ absurd (
            some≢none r (
              sym (lookup-insert (key_of r) r registry.records)
              ∙ ap (lookup (insert (key_of r) r registry.records)) (sym k)
              ∙ absent))
      ],
    )
  ]
