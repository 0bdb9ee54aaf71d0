-- ===== src/Base/Sort.antt =====
-- `sorted(...)` on texts and `sort(key=...)` on rows, as a stable insertion sort.
use Prim.Native.String.{compare}
use Prim.Native.Nat.{Ordering}
use mathlib.Core.List.{Perm}
use mathlib.Core.List.Perm
use tpf2mp.Base.{
  ℕ, suc, ◌+◌, String, ◌≡◌, refl, ◌∙◌, ap, Bool, true, false, List, [], ◌∷◌, arith, length, sum_by,
  All,
}

-- Texts are compared by code point.
abbrev pub leb_str : String → String → Bool
leb_str s t = elim (compare s t) [ Ordering.gt ↦ false | _ ↦ true ]

module _ {ℓ} {A : Type ℓ} (le : A → A → Bool) where
  -- Equal rows stay in their order: `x` stood before all of `ys`.
  unfoldable pub insert_row : A → List A → List A
  insert_row x [] = x ∷ []
  insert_row x (y ∷ ys) =
      let rest = insert_row x ys in elim (le x y) [ true ↦ x ∷ y ∷ ys | false ↦ y ∷ rest ]

  unfoldable pub sort_rows : List A → List A
  unfolding insert_row
  sort_rows [] = []
  sort_rows (x ∷ xs) = insert_row x (sort_rows xs)

  pub insert_row-perm : (x : A) (ys : List A) → Perm (insert_row x ys) (x ∷ ys)
  unfolding insert_row
  insert_row-perm x [] = Perm.rfl
  insert_row-perm x (y ∷ ys) =
      elim (le x y)
        as (λ b. Perm (elim b [ true ↦ x ∷ y ∷ ys | false ↦ y ∷ insert_row x ys ]) (x ∷ y ∷ ys)) [
          | true ↦ Perm.rfl
          | false ↦ Perm.trans (Perm.cons y (insert_row-perm x ys)) (Perm.swap x y ys)
        ]

  pub sort_rows-perm : (xs : List A) → Perm (sort_rows xs) xs
  unfolding sort_rows
  sort_rows-perm [] = Perm.rfl
  sort_rows-perm (x ∷ xs) =
      Perm.trans (insert_row-perm x (sort_rows xs)) (Perm.cons x (sort_rows-perm xs))

  pub sum_by-insert_row :
      (f : A → ℕ) (x : A) (ys : List A) → sum_by f (insert_row x ys) ≡ f x + sum_by f ys
  unfolding insert_row
  sum_by-insert_row f x [] = refl
  sum_by-insert_row f x (y ∷ ys) = ground (arith, sum_by-insert_row f x ys)

  pub sum_by-sort_rows : (f : A → ℕ) (xs : List A) → sum_by f (sort_rows xs) ≡ sum_by f xs
  unfolding sort_rows
  sum_by-sort_rows f [] = refl
  sum_by-sort_rows f (x ∷ xs) =
      sum_by-insert_row f x (sort_rows xs) ∙ ap (λ n. f x + n) (sum_by-sort_rows f xs)

  pub length-insert_row : (x : A) (ys : List A) → length (insert_row x ys) ≡ length (x ∷ ys)
  unfolding insert_row
  length-insert_row x [] = refl
  length-insert_row x (y ∷ ys) = ground (arith, length-insert_row x ys)

  pub length-sort_rows : (xs : List A) → length (sort_rows xs) ≡ length xs
  unfolding sort_rows
  length-sort_rows [] = refl
  length-sort_rows (x ∷ xs) = length-insert_row x (sort_rows xs) ∙ ap suc (length-sort_rows xs)

module _ {ℓ κ} {A : Type ℓ} (le : A → A → Bool) (P : A → Type κ) where
  pub All-insert_row : (x : A) (ys : List A) → P x → All P ys → All P (insert_row le x ys)
  unfolding insert_row
  All-insert_row x [] p h = (p, tt)
  All-insert_row x (y ∷ ys) p h =
      elim (le x y)
        as (λ b. All P (elim b [ true ↦ x ∷ y ∷ ys | false ↦ y ∷ insert_row le x ys ])) [
          | true ↦ (p, h)
          | false ↦ (h.0, All-insert_row x ys p h.1)
        ]

  -- What holds of all rows holds of all sorted rows.
  pub All-sort_rows : (xs : List A) → All P xs → All P (sort_rows le xs)
  unfolding sort_rows
  All-sort_rows [] h = tt
  All-sort_rows (x ∷ xs) h = All-insert_row x (sort_rows le xs) h.0 (All-sort_rows xs h.1)

-- `sorted(names)`
unfoldable pub sorted : List String → List String
unfolding sort_rows
sorted = sort_rows leb_str
