-- ===== src/Runtime/Engine/Trigger/Logs.antt =====
-- The logs of a run state: numbered decisions, and the packets that belong to them.
use decision_gate.Prelude.{
  ℕ, zero, suc, ◌+◌, ◌≤◌, ◌≡◌, refl, sym, ◌∙◌, ap, String, List, [], ◌∷◌, ◌++◌, none, some, Bool,
  false, Bool-cases, inl, inr, ◌≢◌, All, length, filter, find, get_last?, arith, ◌==◌, string_eq,
}
use decision_gate.Prelude.Decimal.{to_string, to_string-injective}
use text.Mathlib.TextEquality.{eq_iff}
use decision_gate.Core.Disclosure.{PacketRecord}
use decision_gate.Core.State.{RunState, DecisionRecord}
use decision_gate.Runtime.Engine.Helpers.{decision_id_of, packets_for_decision}
use decision_gate.Runtime.Engine.Trigger.Progress.{Owned}

-- Decisions carry the numbers from n + 1 on, and the identifiers made from them.
abbrev pub NumberedFrom : ℕ → List DecisionRecord → Type 0
NumberedFrom n [] = Unit {0}
NumberedFrom n (d ∷ ds) =
    (d.seq ≡ n + 1) × (d.decision_id ≡ decision_id_of (n + 1)) × NumberedFrom (n + 1) ds

-- The identifier of one of the first n decisions.
abbrev pub Issued : ℕ → String → Type 0
Issued n id = (k : ℕ) × (1 ≤ k) × (k ≤ n) × (id ≡ decision_id_of k)

pub record IsWellFormed {V : Type 0} (s : RunState V) : Type 0 where
  pub numbered : NumberedFrom 0 s.decisions
  pub issued : All (λ p. Issued (length s.decisions) p.decision_id) s.packets

-- The text behind the nine characters of `decision-`.
after_prefix : ℕ → String → String
after_prefix zero s = s
after_prefix (suc n) String.[] = String.[]
after_prefix (suc n) (String.◌∷◌ c s) = after_prefix n s

after-decision_id : (k : ℕ) → after_prefix 9 (decision_id_of k) ≡ to_string k
unfolding after_prefix
after-decision_id k = refl

pub decision_id-injective : (j k : ℕ) → decision_id_of j ≡ decision_id_of k → j ≡ k
decision_id-injective j k h =
    to_string-injective j k
      (sym (after-decision_id j) ∙ ap (after_prefix 9) h ∙ after-decision_id k)

pub NumberedFrom-append :
    (n : ℕ) (ds : List DecisionRecord) (d : DecisionRecord)
    → NumberedFrom n ds
    → d.seq ≡ n + length ds + 1
    → d.decision_id ≡ decision_id_of (n + length ds + 1)
    → NumberedFrom n (ds ++ d ∷ [])
NumberedFrom-append n [] d h p q = (p ∙ omega arith, q ∙ ap decision_id_of (omega arith), tt)
NumberedFrom-append n (e ∷ ds) d h p q = (
  h.0,
  h.1,
  NumberedFrom-append (n + 1) ds d h.2 (p ∙ omega arith) (q ∙ ap decision_id_of (omega arith)),
)

module _ {V : Type 0} where
  pub Issued-append :
      (n : ℕ) (packets own : List (PacketRecord V))
      → All (λ p. Issued n p.decision_id) packets
      → Owned (decision_id_of (n + 1)) own
      → All (λ p. Issued (n + 1) p.decision_id) (packets ++ own)
  Issued-append n [] [] h k = tt
  Issued-append n [] (p ∷ own) h k =
      ((n + 1, omega arith, omega arith, k.0), Issued-append n [] own h k.1)
  Issued-append n (p ∷ packets) own h k =
      ((h.0.0, h.0.1, omega (arith, h.0.2), h.0.3), Issued-append n packets own h.1 k)

not_equal : (a b : String) → a ≢ b → (a == b) ≡ false
not_equal a b h = elim (Bool-cases (a == b)) [
  | inl same ↦ absurd (h ((eq_iff a b).0 same))
  | inr other ↦ other
]

module _ {V : Type 0} (id : String) where
  abbrev own? : PacketRecord V → Bool
  own? p = p.decision_id == id

  filter-Owned : (own : List (PacketRecord V)) → Owned id own → filter own? own ≡ own
  filter-Owned [] h = refl
  filter-Owned (p ∷ own) h =
      rw ((eq_iff p.decision_id id).1 h.0) (ap (λ l. p ∷ l) (filter-Owned own h.1))

  filter-append-Owned :
      (packets own : List (PacketRecord V))
      → All (λ p. p.decision_id ≢ id) packets
      → Owned id own
      → filter own? (packets ++ own) ≡ own
  filter-append-Owned [] own h k = filter-Owned own k
  filter-append-Owned (p ∷ packets) own h k =
      rw (not_equal p.decision_id id h.0) (filter-append-Owned packets own h.1 k)

module _ {V : Type 0} where
  Issued-ne :
      (n : ℕ) (packets : List (PacketRecord V))
      → All (λ p. Issued n p.decision_id) packets
      → All (λ p. p.decision_id ≢ decision_id_of (n + 1)) packets
  Issued-ne n [] h = tt
  Issued-ne n (p ∷ packets) h = (
    λ e. absurd (omega (arith, h.0.2, decision_id-injective h.0.0 (n + 1) (sym h.0.3 ∙ e))),
    Issued-ne n packets h.1,
  )

pub get_last?-append :
    (ds : List DecisionRecord) (d : DecisionRecord) → get_last? (ds ++ d ∷ []) ≡ some d
get_last?-append [] d = refl
get_last?-append (e ∷ []) d = refl
get_last?-append (e ∷ f ∷ ds) d = get_last?-append (f ∷ ds) d

absurd_none : (e : DecisionRecord) → some e ≡ none → ⊥
absurd_none e h = cc

pub find-append :
    (id : String) (ds : List DecisionRecord) (d : DecisionRecord)
    → find (λ e. e.trigger_id == id) ds ≡ none
    → d.trigger_id ≡ id
    → find (λ e. e.trigger_id == id) (ds ++ d ∷ []) ≡ some d
find-append id [] d h k = ground (arith, (eq_iff d.trigger_id id).1 k)
find-append id (e ∷ ds) d h k = elim (Bool-cases (e.trigger_id == id)) [
  | inl same ↦ absurd (absurd_none e (rw same at h))
  | inr other ↦ rw other (find-append id ds d (rw other at h) k)
]

module _ {V : Type 0} where
  -- The packets that a decision has just issued are found again by its identifier, and no others.
  pub packets_for_decision-new :
      (s s' : RunState V) (own : List (PacketRecord V))
      → IsWellFormed s
      → s'.packets ≡ s.packets ++ own
      → Owned (decision_id_of (length s.decisions + 1)) own
      → packets_for_decision s' (decision_id_of (length s.decisions + 1)) ≡ own
  unfolding packets_for_decision
  packets_for_decision-new s s' own h e k = rw e (
      filter-append-Owned (decision_id_of (length s.decisions + 1)) s.packets own
        (Issued-ne (length s.decisions) s.packets h.issued) k)
