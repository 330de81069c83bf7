-- ===== src/Runtime/Store/Registry.antt =====
-- crates/decision-gate-core/src/runtime/store.rs: the in-memory registry of data shapes.
pub mod Kept
pub mod Pages
use Prim.Native.Nat.{Ordering}
use Prim.Native.String.{compare}
use decision_gate.Prelude.{
  ℕ, zero, suc, ◌+◌, ◌*◌, String, List, [], ◌∷◌, map, Option, none, some, Bool, true, false, ◌&&◌,
  ◌==◌, string_eq, nat_beq, length, filter, position, get_last?, take, drop, ltb, leb,
  if◌then◌else◌,
}
use decision_gate.Prelude.Decimal
use decision_gate.Prelude.Decimal.{to_string}
use decision_gate.Prelude.Map.{Entries, lookup, insert}
use decision_gate.Prelude.Action.{Action}
use decision_gate.Prelude.Outcome.{Outcome, ok, err, ◌>>=◌}
use decision_gate.Prelude.Sorting.{sort_by}
use decision_gate.Core.DataShape.{DataShapeRecord, DataShapePage}
use decision_gate.Runtime.Interfaces.{DataShapeRegistryError, DataShapeRegistry}

pub record RegistryCursor : Type 0 where
  pub schema_id : String
  pub version : String

-- `serde_json` for schemas and cursors: the bytes of a schema, and the text of a cursor and back.
pub record Serde (V : Type 0) : Type 0 where
  pub to_vec : V → Outcome String (List ℕ)
  pub to_text : RegistryCursor → Outcome String String
  pub from_text : String → Option RegistryCursor

-- `format!("{tenant_id}/{namespace_id}/{schema_id}/{version}")`
unfoldable pub schema_key : ℕ → ℕ → String → String → String
schema_key tenant_id namespace_id schema_id version = Decimal.◌++◌ (to_string tenant_id) (
    Decimal.◌++◌ "/" (
      Decimal.◌++◌ (to_string namespace_id)
        (Decimal.◌++◌ "/" (Decimal.◌++◌ schema_id (Decimal.◌++◌ "/" version)))))

abbrev pub key_of : {V : Type 0} → DataShapeRecord V → String
key_of r = schema_key r.tenant_id r.namespace_id r.schema_id r.version

-- `poisoned`: a thread panicked while it held the lock.
pub record InMemoryDataShapeRegistry (V : Type 0) : Type 0 where
  pub records : Entries (DataShapeRecord V)
  pub max_schema_bytes : ℕ
  pub max_entries : Option ℕ
  pub poisoned : Bool

abbrev pub default_max_schema_bytes : ℕ
default_max_schema_bytes = 1024 * 1024

abbrev pub with_limits : {V : Type 0} → ℕ → Option ℕ → InMemoryDataShapeRegistry V
with_limits max_schema_bytes max_entries = record {
  records = [];
  max_schema_bytes = max_schema_bytes;
  max_entries = max_entries;
  poisoned = Bool.false;
}

poisoned_error : DataShapeRegistryError
poisoned_error = DataShapeRegistryError.io "schema registry mutex poisoned"

too_large : ℕ → ℕ → DataShapeRegistryError
too_large size max = DataShapeRegistryError.invalid (
    Decimal.◌++◌ "schema exceeds size limit: " (
      Decimal.◌++◌ (to_string size)
        (Decimal.◌++◌ " bytes (max " (Decimal.◌++◌ (to_string max) ")"))))

-- `if let Some(max_entries) = self.max_entries && guard.len() >= max_entries`
abbrev is_full : Option ℕ → ℕ → Bool
is_full none n = Bool.false
is_full (some max) n = leb max n

abbrev Fallible {ℓ} : Type ℓ → Type ℓ
Fallible = Outcome DataShapeRegistryError

abbrev after : Option ℕ → ℕ
after none = 0
after (some index) = index + 1

abbrev encoded : Outcome String String → Fallible (Option String)
encoded (ok text) = ok (some text)
encoded (err e) = err (DataShapeRegistryError.invalid (Decimal.◌++◌ "failed to encode cursor: " e))

module _ {V : Type 0} where
  -- What follows the lookup of the key.
  insert_absent :
      Option (DataShapeRecord V)
      → DataShapeRecord V
      → InMemoryDataShapeRegistry V
      → Fallible (InMemoryDataShapeRegistry V)
  insert_absent (some known) r registry =
      err (DataShapeRegistryError.conflict "schema already registered")
  insert_absent none r registry =
      if is_full registry.max_entries (length registry.records)
      then err (DataShapeRegistryError.invalid "schema registry max entries exceeded")
      else ok (record registry { records = insert (key_of r) r registry.records })

  -- An error leaves the registry as it is.
  abbrev stored :
      InMemoryDataShapeRegistry V
      → Fallible (InMemoryDataShapeRegistry V)
      → Fallible (Unit {0}) × InMemoryDataShapeRegistry V
  stored registry (ok registry') = (ok tt, registry')
  stored registry (err e) = (err e, registry)

  sized :
      Outcome String (List ℕ)
      → DataShapeRecord V
      → InMemoryDataShapeRegistry V
      → Fallible (InMemoryDataShapeRegistry V)
  unfolding insert_absent too_large poisoned_error
  sized (err e) r registry = err (DataShapeRegistryError.invalid e)
  sized (ok bytes) r registry =
      if ltb registry.max_schema_bytes (length bytes)
      then err (too_large (length bytes) registry.max_schema_bytes)
      else if registry.poisoned
      then err poisoned_error
      else insert_absent (lookup registry.records (key_of r)) r registry

  unfoldable pub register :
      Serde V
      → DataShapeRecord V
      → Action DataShapeRegistryError (InMemoryDataShapeRegistry V) (Unit {0})
  unfolding sized
  register serde r registry = stored registry (sized (serde.to_vec r.schema) r registry)

  -- `lock().map_err(..)?`, for the operations that only read.
  under_lock :
      {A : Type 0}
      → Bool
      → InMemoryDataShapeRegistry V
      → Fallible A
      → Fallible A × InMemoryDataShapeRegistry V
  unfolding poisoned_error
  under_lock true registry answer = (err poisoned_error, registry)
  under_lock false registry answer = (answer, registry)

  unfoldable pub get :
      ℕ
      → ℕ
      → String
      → String
      → Action DataShapeRegistryError (InMemoryDataShapeRegistry V) (Option (DataShapeRecord V))
  unfolding under_lock
  get tenant_id namespace_id schema_id version registry =
      under_lock registry.poisoned registry
        (ok (lookup registry.records (schema_key tenant_id namespace_id schema_id version)))

  -- The order of `sort_by`: by identifier, then by version.
  abbrev pub record_cmp : DataShapeRecord V → DataShapeRecord V → Ordering
  record_cmp a b = elim (compare a.schema_id b.schema_id) [
    | Ordering.eq ↦ compare a.version b.version
    | other ↦ other
  ]

  -- The records of one tenant and namespace, in that order.
  unfoldable pub listed : ℕ → ℕ → InMemoryDataShapeRegistry V → List (DataShapeRecord V)
  listed tenant_id namespace_id registry = sort_by record_cmp (
      filter (λ r. nat_beq r.tenant_id tenant_id && nat_beq r.namespace_id namespace_id)
        (map (λ e. e.1) registry.records))

  unfoldable pub start_index : Serde V → Option String → List (DataShapeRecord V) → Fallible ℕ
  start_index serde none records = ok 0
  start_index serde (some cursor) records = elim (serde.from_text cursor) [
    | none ↦ err (DataShapeRegistryError.invalid "invalid cursor")
    | some c ↦
        ok (after (position (λ r. r.schema_id == c.schema_id && r.version == c.version) records))
  ]

  unfoldable pub next_token : Serde V → List (DataShapeRecord V) → Fallible (Option String)
  next_token serde items = elim (get_last? items) [
    | none ↦ ok none
    | some r ↦ encoded (serde.to_text (record { schema_id = r.schema_id; version = r.version }))
  ]

  page : Serde V → Option String → ℕ → List (DataShapeRecord V) → Fallible (DataShapePage V)
  unfolding start_index next_token
  page serde cursor limit records = do
    start ← start_index serde cursor records
    token ← next_token serde (take limit (drop start records))
    ok (record { items = take limit (drop start records); next_token = token })

  unfoldable pub list :
      Serde V
      → ℕ
      → ℕ
      → Option String
      → ℕ
      → Action DataShapeRegistryError (InMemoryDataShapeRegistry V) (DataShapePage V)
  unfolding page listed under_lock
  list serde tenant_id namespace_id cursor limit registry =
      if nat_beq limit 0
      then (
        err (DataShapeRegistryError.invalid "schema list limit must be greater than zero"),
        registry,
      )
      else under_lock registry.poisoned registry
          (page serde cursor limit (listed tenant_id namespace_id registry))

  -- `impl DataShapeRegistry for InMemoryDataShapeRegistry`. A `SharedDataShapeRegistry` passes every
  -- call on.
  abbrev pub in_memory_registry : Serde V → DataShapeRegistry V (InMemoryDataShapeRegistry V)
  in_memory_registry serde = record { register = register serde; get = get; list = list serde }
