-- ===== src/Prelude/Sorting.antt =====
-- `slice::sort_by`: a stable sort, as insertion from the right.
use Prim.Native.Nat.{Ordering}
use mathlib.Core.Path.{refl}
use mathlib.Core.List.{List, [], ◌∷◌, Permᴰ}
use mathlib.Core.List.Permᴰ

module _ {ℓ} {A : Type ℓ} (cmp : A → A → Ordering) where
  unfoldable pub insert : A → List A → List A
  insert x [] = x ∷ []
  insert x (y ∷ ys) =
      let rest = y ∷ insert x ys in elim (cmp x y) [ Ordering.gt ↦ rest | _ ↦ x ∷ y ∷ ys ]

  unfoldable pub sort_by : List A → List A
  unfolding insert
  sort_by [] = []
  sort_by (x ∷ xs) = insert x (sort_by xs)

  insert-Perm : (x : A) (xs : List A) → Permᴰ (insert x xs) (x ∷ xs)
  unfolding insert
  insert-Perm x [] = Permᴰ.refl (x ∷ [])
  insert-Perm x (y ∷ ys) = placed (insert-Perm x ys) (cmp x y)
    where
      placed :
          Permᴰ (insert x ys) (x ∷ ys)
          → (o : Ordering)
          → Permᴰ (elim o [ Ordering.gt ↦ y ∷ insert x ys | _ ↦ x ∷ y ∷ ys ]) (x ∷ y ∷ ys)
      placed rest Ordering.gt = Permᴰ.trans (Permᴰ.cons refl rest) (Permᴰ.swap refl refl)
      placed rest Ordering.lt = Permᴰ.refl (x ∷ y ∷ ys)
      placed rest Ordering.eq = Permᴰ.refl (x ∷ y ∷ ys)

  -- Sorting keeps every element, as often as it stands in the list.
  pub sort_by-Perm : (xs : List A) → Permᴰ (sort_by xs) xs
  unfolding sort_by
  sort_by-Perm [] = Permᴰ.refl []
  sort_by-Perm (x ∷ xs) =
      Permᴰ.trans (insert-Perm x (sort_by xs)) (Permᴰ.cons refl (sort_by-Perm xs))
