-- ===== src/Runtime/Store/Lawful.antt =====
-- crates/decision-gate-core/src/runtime/store.rs: what the in-memory store keeps.
use decision_gate.Prelude.{ℕ, String, ◌≡◌, ◌≢◌, refl, ap, some, Bool, true, false}
use decision_gate.Prelude.Decimal.{
  ◌++◌, to_string, to_string-injective, slashless-to_string, separator-injective,
}
use decision_gate.Prelude.Map.{Entries, lookup-insert, lookup-insert_other}
use decision_gate.Prelude.Outcome.{ok}
use decision_gate.Core.State.{RunState}
use decision_gate.Runtime.Interfaces.{IsLawful}
use decision_gate.Runtime.Store.{
  run_key, InMemoryRunStateStore, locked, load, save, in_memory_store,
}

-- Different runs have different keys, also where a run identifier has a slash.
pub run_key-injective :
    (t t' n n' : ℕ) (r r' : String)
    → run_key t n r ≡ run_key t' n' r'
    → (t ≡ t') × (n ≡ n') × (r ≡ r')
unfolding run_key
run_key-injective t t' n n' r r' e =
    let outer =
      separator-injective (to_string t) (to_string t') (to_string n ++ "/" ++ r)
        (to_string n' ++ "/" ++ r') (slashless-to_string t) (slashless-to_string t') e in
    let inner =
      separator-injective (to_string n) (to_string n') r r' (slashless-to_string n)
        (slashless-to_string n') outer.1 in
    (to_string-injective t t' outer.0, to_string-injective n n' inner.0, inner.1)

module _ {V : Type 0} where
  abbrev at : Entries (RunState V) → Bool → InMemoryRunStateStore V
  at runs poisoned = record { runs = runs; poisoned = poisoned }

  reads :
      (t n : ℕ) (r : String) (runs : Entries (RunState V)) (b : Bool)
      → (load t n r (at runs b)).1 ≡ at runs b
  unfolding load locked
  reads t n r runs true = refl
  reads t n r runs false = refl

  saved :
      (s : RunState V) (runs : Entries (RunState V)) (b : Bool)
      → (save s (at runs b)).0 ≡ ok tt
      → (load s.tenant_id s.namespace_id s.run_id (save s (at runs b)).1).0 ≡ ok (some s)
  unfolding load save locked
  saved s runs true h = cc
  saved s runs false h = ap ok (lookup-insert (run_key s.tenant_id s.namespace_id s.run_id) s runs)

  others :
      (s : RunState V) (runs : Entries (RunState V)) (b : Bool) (t n : ℕ) (r : String)
      → run_key s.tenant_id s.namespace_id s.run_id ≢ run_key t n r
      → (load t n r (save s (at runs b)).1).0 ≡ (load t n r (at runs b)).0
  unfolding load save locked
  others s runs true t n r d = refl
  others s runs false t n r d =
      ap ok
        (lookup-insert_other (run_key s.tenant_id s.namespace_id s.run_id) (run_key t n r) s runs d)

  -- The in-memory store is a lawful store: a run that was saved without an error is loaded as it was
  -- saved, saving it leaves every other run alone, and loading changes nothing.
  pub in_memory_store-IsLawful : IsLawful (in_memory_store {V = V})
  in_memory_store-IsLawful = record {
    load_reads = λ t n r w. reads t n r w.runs w.poisoned;
    load_saved = λ s w h. saved s w.runs w.poisoned h;
    load_other = λ s w t n r d.
        others s w.runs w.poisoned t n r
          (λ e. d (run_key-injective s.tenant_id t s.namespace_id n s.run_id r e));
  }
