-- ===== src/Runtime/Store/Registry/Pages.antt =====
-- crates/decision-gate-core/src/runtime/store.rs: a client that follows the tokens of `list`.
use mathlib.Core.List.{append_assoc}
use mathlib.Core.Path.{subst}
use decision_gate.Prelude.{
  ℕ, zero, suc, ◌+◌, ◌≤◌, ◌<◌, ◌≡◌, refl, sym, ap, ◌∙◌, String, List, [], ◌∷◌, ◌++◌, Option, none,
  some, Bool, true, false, ◌&&◌, Bool-cases, inl, inr, length, length-append, nat_beq, take, drop,
  position, get_last?, ◌==◌, string_eq, All, arith,
}
use decision_gate.Prelude.Distinct.{equal_to, same}
use decision_gate.Prelude.Outcome.{ok, err, ◌>>=◌}
use decision_gate.Core.DataShape.{DataShapeRecord, DataShapePage}
use decision_gate.Runtime.Store.Registry.{
  Serde, RegistryCursor, InMemoryDataShapeRegistry, Fallible, after, start_index, next_token, page,
  list, listed, under_lock,
}

-- `serde_json` reads back the cursors that it writes, and writes every cursor.
abbrev pub ReadsBack : {V : Type 0} → Serde V → Type 0
ReadsBack serde =
    (c : RegistryCursor)
    → (text : String) × (serde.to_text c ≡ ok text) × (serde.from_text text ≡ some c)

-- The identity of a record within a tenant and a namespace.
abbrev pub SameShape : {V : Type 0} → DataShapeRecord V → DataShapeRecord V → Type 0
SameShape a b = (a.schema_id ≡ b.schema_id) × (a.version ≡ b.version)

abbrev pub DistinctShapes : {V : Type 0} → List (DataShapeRecord V) → Type 0
DistinctShapes [] = Unit {0}
DistinctShapes (r ∷ rs) = All (λ s. ¬ SameShape r s) rs × DistinctShapes rs

drop-append {ℓ} : {A : Type ℓ} (xs ys : List A) → drop (length xs) (xs ++ ys) ≡ ys
drop-append [] ys = refl
drop-append (x ∷ xs) ys = drop-append xs ys

take-drop {ℓ} : {A : Type ℓ} (n : ℕ) (xs : List A) → take n xs ++ drop n xs ≡ xs
take-drop zero xs = refl
take-drop (suc n) [] = refl
take-drop (suc n) (x ∷ xs) = ap (λ ys. x ∷ ys) (take-drop n xs)

length-drop {ℓ} : {A : Type ℓ} (n : ℕ) (xs : List A) → length (drop n xs) ≤ length xs
length-drop zero xs = omega arith
length-drop (suc n) [] = omega arith
length-drop (suc n) (x ∷ xs) = omega (arith, length-drop n xs)

take-empty {ℓ} : {A : Type ℓ} (n : ℕ) (xs : List A) → 0 < n → take n xs ≡ [] → xs ≡ []
take-empty zero xs h e = absurd (omega arith)
take-empty (suc n) [] h e = refl
take-empty (suc n) (x ∷ xs) h e = cc

-- A list that is not empty, up to its last element.
record Last {ℓ} {A : Type ℓ} (xs : List A) : Type ℓ where
  init : List A
  last : A
  whole : xs ≡ init ++ last ∷ []
  is_last : get_last? xs ≡ some last

Last-cons {ℓ} : {A : Type ℓ} (x : A) (xs : List A) → Last (x ∷ xs)
Last-cons x [] = record { init = []; last = x; whole = refl; is_last = refl }
Last-cons x (y ∷ xs) =
    let l = Last-cons y xs in
    record {
      init = x ∷ l.init;
      last = l.last;
      whole = ap (λ ys. x ∷ ys) l.whole;
      is_last = l.is_last;
    }

positive : (n : ℕ) → 0 < n → nat_beq n 0 ≡ false
positive n h = ground arith

regroup {ℓ} :
    {A : Type ℓ} (xs ys : List A) (z : A) (zs : List A)
    → xs ++ ((ys ++ z ∷ []) ++ zs) ≡ (xs ++ ys) ++ z ∷ zs
regroup xs ys z zs =
    ap (λ l. xs ++ l) (append_assoc ys (z ∷ []) zs) ∙ sym (append_assoc xs ys (z ∷ zs))

counted {ℓ} :
    {A : Type ℓ} (xs ys : List A) (z : A) → length (xs ++ ys) + 1 ≡ length (xs ++ (ys ++ z ∷ []))
counted xs ys z =
    omega (arith, length-append xs ys, length-append xs (ys ++ z ∷ []), length-append ys (z ∷ []))

shorter {ℓ} :
    {A : Type ℓ} (rest later : List A) (y : A) (ys : List A) (calls : ℕ)
    → (y ∷ ys) ++ later ≡ rest
    → length rest < suc calls
    → length later < calls
shorter rest later y ys calls e h = omega (arith, length-append ys later, ap length e)

module _ {V : Type 0} where
  abbrev matches : RegistryCursor → DataShapeRecord V → Bool
  matches c r = r.schema_id == c.schema_id && r.version == c.version

  abbrev cursor_of : DataShapeRecord V → RegistryCursor
  cursor_of r = record { schema_id = r.schema_id; version = r.version }

  matches_self : (r : DataShapeRecord V) → matches (cursor_of r) r ≡ true
  matches_self r = rw (same r.schema_id) (same r.version)

  matches_other :
      (r last : DataShapeRecord V) → ¬ SameShape r last → matches (cursor_of last) r ≡ false
  matches_other r last n = elim (Bool-cases (r.schema_id == last.schema_id)) [
    | inl a ↦ elim (Bool-cases (r.version == last.version)) [
      | inl b ↦
          absurd (n (equal_to r.schema_id last.schema_id a, equal_to r.version last.version b))
      | inr b ↦ rw a b
    ]
    | inr a ↦ rw a refl
  ]

  All-middle :
      (P : DataShapeRecord V → Type 0) (xs : List (DataShapeRecord V)) (y : DataShapeRecord V)
      (ys : List (DataShapeRecord V))
      → All P (xs ++ y ∷ ys)
      → P y
  All-middle P [] y ys h = h.0
  All-middle P (x ∷ xs) y ys h = All-middle P xs y ys h.1

  -- A cursor finds the record that it was written for.
  position-last :
      (init : List (DataShapeRecord V)) (last : DataShapeRecord V) (rest : List (DataShapeRecord V))
      → DistinctShapes (init ++ last ∷ rest)
      → position (matches (cursor_of last)) (init ++ last ∷ rest) ≡ some (length init)
  position-last [] last rest d = rw (matches_self last) refl
  position-last (r ∷ init) last rest d =
      rw
        (
          matches_other r last (All-middle (λ s. ¬ SameShape r s) init last rest d.0),
          position-last init last rest d.1,
        )
        refl

module _ {V : Type 0} (serde : Serde V) (tenant_id namespace_id limit : ℕ)
    (registry : InMemoryDataShapeRegistry V) where
  prepended :
      List (DataShapeRecord V)
      → Option (List (DataShapeRecord V))
      → Option (List (DataShapeRecord V))
  prepended items none = none
  prepended items (some later) = some (items ++ later)

  -- One answer, and what follows its token.
  continued :
      Fallible (DataShapePage V)
      → (Option String → Option (List (DataShapeRecord V)))
      → Option (List (DataShapeRecord V))
  unfolding prepended
  continued (err e) go = none
  continued (ok p) go = elim p.items [ [] ↦ some [] | _ ∷ _ ↦ prepended p.items (go p.next_token) ]

  -- The records of page after page from a token on, up to an empty page; nothing if a call fails or if so
  -- many calls do not reach an empty page.
  unfoldable pub collected : ℕ → Option String → Option (List (DataShapeRecord V))
  unfolding continued
  collected zero cursor = none
  collected (suc calls) cursor =
      continued (list serde tenant_id namespace_id cursor limit registry).0 (collected calls)

  abbrev all_records : List (DataShapeRecord V)
  all_records = listed tenant_id namespace_id registry

  module _ (reads : ReadsBack serde) (open_lock : registry.poisoned ≡ false)
      (some_limit : 0 < limit) (distinct : DistinctShapes all_records) where
    listing :
        (cursor : Option String)
        → (list serde tenant_id namespace_id cursor limit registry).0
          ≡ page serde cursor limit all_records
    unfolding list under_lock
    listing cursor =
        rw (positive limit some_limit)
          (ap (λ b. (under_lock b registry (page serde cursor limit all_records)).0) open_lock)

    -- Where the list goes on after `done`, the pages from there are the rest of it.
    abbrev Goal : ℕ → Type 0
    Goal calls =
        (cursor : Option String) (done rest : List (DataShapeRecord V))
        → all_records ≡ done ++ rest
        → start_index serde cursor all_records ≡ ok (length done)
        → length rest < calls
        → collected calls cursor ≡ some rest

    abbrev page_of : List (DataShapeRecord V) → Fallible (DataShapePage V)
    page_of items =
        next_token serde items >>= λ token. ok (record { items = items; next_token = token })

    page_at :
        (cursor : Option String) (done rest : List (DataShapeRecord V))
        → all_records ≡ done ++ rest
        → start_index serde cursor all_records ≡ ok (length done)
        → page serde cursor limit all_records ≡ page_of (take limit rest)
    unfolding page
    page_at cursor done rest e s =
        rw s (ap (λ l. page_of (take limit l)) (ap (drop (length done)) e ∙ drop-append done rest))

    -- The token of a page with this last record leads to what follows it.
    start_after :
        (text : String) (before : List (DataShapeRecord V)) (last : DataShapeRecord V)
        (later : List (DataShapeRecord V))
        → serde.from_text text ≡ some (cursor_of last)
        → all_records ≡ before ++ last ∷ later
        → start_index serde (some text) all_records ≡ ok (length before + 1)
    unfolding start_index
    start_after text before last later back e =
        rw (start_index, back)
          (ap (λ o. ok (after o))
            (ap (position (matches (cursor_of last))) e
              ∙ position-last before last later (subst DistinctShapes e distinct)))

    token_of :
        (items : List (DataShapeRecord V)) (last : DataShapeRecord V) (text : String)
        → get_last? items ≡ some last
        → serde.to_text (cursor_of last) ≡ ok text
        → next_token serde items ≡ ok (some text)
    unfolding next_token
    token_of items last text e w = rw (next_token, e, w) refl

    paged :
        (calls : ℕ)
        → Goal calls
        → (done rest items : List (DataShapeRecord V)) → all_records ≡ done ++ rest
        → take limit rest ≡ items
        → length rest < suc calls
        → continued (page_of items) (collected calls) ≡ some rest
    unfolding continued next_token prepended
    paged calls go done rest [] e t l = ap some (sym (take-empty limit rest some_limit t))
    paged calls go done rest (y ∷ ys) e t l =
        let items = Last-cons y ys in
        let (text, written, back) = reads (cursor_of items.last) in
        let whole = sym (ap (λ zs. zs ++ drop limit rest) t) ∙ take-drop limit rest in
        let split = e ∙ ap (λ zs. done ++ zs) (sym whole) in
        let regrouped =
          split
          ∙ ap (λ zs. done ++ (zs ++ drop limit rest)) items.whole
          ∙ regroup done items.init items.last (drop limit rest) in
        let start =
          start_after text (done ++ items.init) items.last (drop limit rest) back regrouped
          ∙ ap ok (
              counted done items.init items.last
              ∙ ap (λ zs. length (done ++ zs)) (sym items.whole)) in
        ap
          (λ r.
            continued (r >>= λ token. ok (record { items = y ∷ ys; next_token = token }))
              (collected calls))
          (token_of (y ∷ ys) items.last text items.is_last written)
        ∙ ap (prepended (y ∷ ys)) (
            go (some text) (done ++ (y ∷ ys)) (drop limit rest)
              (split ∙ sym (append_assoc done (y ∷ ys) (drop limit rest))) start
              (shorter rest (drop limit rest) y ys calls whole l))
        ∙ ap some whole

    rest_collected : (calls : ℕ) → Goal calls
    unfolding collected
    rest_collected zero cursor done rest e s l = absurd (omega arith)
    rest_collected (suc calls) cursor done rest e s l =
        ap (λ p. continued p (collected calls)) (listing cursor ∙ page_at cursor done rest e s)
        ∙ paged calls (rest_collected calls) done rest (take limit rest) e refl l

    -- A client that asks for page after page of at least one record, each with the token of the last,
    -- reaches an empty page, and no error, after at most one call for each record and one more, and then
    -- has every record of the tenant and namespace, once and in the order of the registry. This holds
    -- where the lock of the registry is not poisoned, where no two of these records have the same
    -- identifier and version, and where cursors are read back as they were written.
    pub collected-all :
        (calls : ℕ) → length all_records < calls → collected calls none ≡ some all_records
    unfolding start_index
    collected-all calls h = rest_collected calls none [] all_records refl refl h
