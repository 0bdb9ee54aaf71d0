-- ===== src/Base/Dict.antt =====
-- A Python dict with text keys, as an association list in insertion order.
use mathlib.Core.Path.{subst}
use tpf2mp.Base.{
  ℕ, ◌+◌, String, ◌≡◌, refl, Bool, true, false, Option, none, some, List, [], ◌∷◌, arith, eq_iff,
  str_eq, Bool-cases, ◌⊎◌, inl, inr, if◌then◌else◌, or_else,
}

abbrev pub Dict {ℓ} : Type ℓ → Type ℓ
Dict V = List (String × V)

module _ {ℓ} {V : Type ℓ} where
  -- `d.get(k)`
  abbrev pub lookup : String → Dict V → Option V
  lookup k [] = none
  lookup k ((j, v) ∷ d) = if str_eq j k then some v else lookup k d

  -- `k in d`
  abbrev pub contains : String → Dict V → Bool
  contains k d = elim (lookup k d) [ none ↦ false | some _ ↦ true ]

  -- `d[k] = v`: an old key keeps its place, a new one goes to the end.
  abbrev pub insert : String → V → Dict V → Dict V
  insert k v [] = (k, v) ∷ []
  insert k v ((j, w) ∷ d) = if str_eq j k then (j, v) ∷ d else (j, w) ∷ insert k v d

  -- `d.pop(k, None)`, with the dict after it; a dict has the key once at most.
  abbrev pub remove : String → Dict V → Dict V
  remove k [] = []
  remove k ((j, w) ∷ d) = if str_eq j k then d else (j, w) ∷ remove k d

  abbrev pub keys : Dict V → List String
  keys [] = []
  keys ((k, v) ∷ d) = k ∷ keys d

  abbrev pub values : Dict V → List V
  values [] = []
  values ((k, v) ∷ d) = v ∷ values d

  pub lookup-insert :
      (k j : String) (v : V) (d : Dict V)
      → lookup j (insert k v d) ≡ (if str_eq k j then some v else lookup j d)
  lookup-insert k j v [] = refl
  lookup-insert k j v ((i, w) ∷ d) =
      ground (arith, eq_iff k j, eq_iff i k, eq_iff i j, lookup-insert k j v d)

module _ {ℓ κ} {V : Type ℓ} (P : V → Type κ) where
  -- What holds of every value that a key has.
  abbrev pub AllValues : Dict V → Type (ℓ ⊔ κ)
  AllValues d = (k : String) (v : V) → lookup k d ≡ some v → P v

  pub AllValues-insert :
      (k : String) (v : V) (d : Dict V) → P v → AllValues d → AllValues (insert k v d)
  AllValues-insert k v d p h j w e = go (Bool-cases (str_eq k j))
    where
      go : (str_eq k j ≡ true) ⊎ (str_eq k j ≡ false) → P w
      go (inl same) = let found : v ≡ w = cc (lookup-insert k j v d, same, e) in subst P found p
      go (inr other) = h j w (cc (lookup-insert k j v d, other, e))

  pub AllValues-nil : AllValues []
  AllValues-nil k v e = absurd (cc)

pub contains-insert {ℓ} :
    {V : Type ℓ} (k j : String) (v : V) (d : Dict V)
    → contains j d ≡ true
    → contains j (insert k v d) ≡ true
contains-insert k j v d h = ground (arith, lookup-insert k j v d)

module _ {ℓ} {V : Type ℓ} (f : V → ℕ) where
  -- `sum(f(v) for v in d.values())`
  abbrev pub sum_values : Dict V → ℕ
  sum_values [] = 0
  sum_values ((k, v) ∷ d) = f v + sum_values d

  abbrev pub value_at : String → Dict V → ℕ
  value_at k d = elim (lookup k d) [ none ↦ 0 | some v ↦ f v ]

  pub sum_values-insert :
      (k : String) (v : V) (d : Dict V)
      → sum_values (insert k v d) + value_at k d ≡ sum_values d + f v
  sum_values-insert k v [] = omega arith
  sum_values-insert k v ((j, w) ∷ d) = ground (arith, sum_values-insert k v d)

-- A dict of counters, `d.get(k, 0)`.
abbrev pub count_of : String → Dict ℕ → ℕ
count_of k d = or_else (lookup k d) 0

-- The sum of all values of a dict of counters.
abbrev pub total_of : Dict ℕ → ℕ
total_of [] = 0
total_of ((k, n) ∷ d) = n + total_of d

pub total_of-insert :
    (k : String) (n : ℕ) (d : Dict ℕ) → total_of (insert k n d) + count_of k d ≡ total_of d + n
total_of-insert k n [] = omega arith
total_of-insert k n ((j, m) ∷ d) = ground (arith, total_of-insert k n d)

-- `d[k] += n`, where a missing key counts as zero.
abbrev pub add_at : String → ℕ → Dict ℕ → Dict ℕ
add_at k n d = insert k (count_of k d + n) d

pub total_of-add_at : (k : String) (n : ℕ) (d : Dict ℕ) → total_of (add_at k n d) ≡ total_of d + n
total_of-add_at k n d = omega (arith, total_of-insert k (count_of k d + n) d)

pub count_of-add_at :
    (k j : String) (n : ℕ) (d : Dict ℕ)
    → count_of j (add_at k n d) ≡ count_of j d + (if str_eq k j then n else 0)
count_of-add_at k j n d = rw lookup-insert (ground (arith, eq_iff k j))
