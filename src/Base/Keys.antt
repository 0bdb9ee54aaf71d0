-- ===== src/Base/Keys.antt =====
-- Which keys a dict has, and how often a text stands in a list.
use tpf2mp.Base.{
  ℕ, ◌+◌, ◌≤◌, ◌<◌, ◌≡◌, refl, String, none, some, List, [], ◌∷◌, arith, sum_by, eq_iff, str_eq,
  if◌then◌else◌, Option-cases, inl, inr,
}
use tpf2mp.Base.Sort.{sorted, leb_str, sum_by-sort_rows}
use tpf2mp.Base.Dict.{Dict, lookup, insert, remove, keys}

abbrev pub occurs : String → List String → ℕ
occurs c names = sum_by (λ name. if str_eq name c then 1 else 0) names

pub occurs-sorted : (c : String) (names : List String) → occurs c (sorted names) ≡ occurs c names
unfolding sorted
occurs-sorted c names = sum_by-sort_rows leb_str (λ name. if str_eq name c then 1 else 0) names

module _ {ℓ} {V : Type ℓ} where
  -- A dict has no key twice.
  abbrev pub HasKeysOnce : Dict V → Type 0
  HasKeysOnce d = (c : String) → occurs c (keys d) ≤ 1

  pub lookup-occurs_zero : (c : String) (d : Dict V) → lookup c d ≡ none → occurs c (keys d) ≡ 0
  lookup-occurs_zero c [] h = refl
  lookup-occurs_zero c ((k, v) ∷ d) h = ground (arith, lookup-occurs_zero c d)

  pub lookup-occurs_pos :
      (c : String) (v : V) (d : Dict V) → lookup c d ≡ some v → 0 < occurs c (keys d)
  lookup-occurs_pos c v [] h = cc
  lookup-occurs_pos c v ((k, w) ∷ d) h = ground (arith, lookup-occurs_pos c v d)

  pub occurs-keys-insert :
      (c k : String) (v w : V) (d : Dict V)
      → lookup k d ≡ some w
      → occurs c (keys (insert k v d)) ≡ occurs c (keys d)
  occurs-keys-insert c k v w [] h = cc
  occurs-keys-insert c k v w ((j, u) ∷ d) h = ground (arith, occurs-keys-insert c k v w d)

  occurs-keys-insert_new :
      (c k : String) (v : V) (d : Dict V)
      → lookup k d ≡ none
      → occurs c (keys (insert k v d)) ≡ occurs c (keys d) + (if str_eq k c then 1 else 0)
  occurs-keys-insert_new c k v [] h = omega arith
  occurs-keys-insert_new c k v ((j, u) ∷ d) h = ground (arith, occurs-keys-insert_new c k v d)

  -- Inserting keeps the keys apart.
  pub insert-HasKeysOnce :
      (k : String) (v : V) (d : Dict V) → HasKeysOnce d → HasKeysOnce (insert k v d)
  insert-HasKeysOnce k v d h c = elim (Option-cases (lookup k d)) [
    | inl absent ↦ ground (
      arith,
      h c,
      occurs-keys-insert_new c k v d absent,
      lookup-occurs_zero k d absent,
      eq_iff k c,
    )
    | inr (w, present) ↦ omega (arith, h c, occurs-keys-insert c k v w d present)
  ]

  -- A dict that has its keys once loses a key that is removed, and nothing else.
  pub occurs-keys-remove :
      (c k : String) (d : Dict V) → occurs c (keys (remove k d)) ≤ occurs c (keys d)
  occurs-keys-remove c k [] = omega arith
  occurs-keys-remove c k ((j, u) ∷ d) = ground (arith, occurs-keys-remove c k d)

  pub remove-HasKeysOnce : (k : String) (d : Dict V) → HasKeysOnce d → HasKeysOnce (remove k d)
  remove-HasKeysOnce k d h c = omega (arith, h c, occurs-keys-remove c k d)

  pub zero-lookup : (c : String) (d : Dict V) → occurs c (keys d) ≡ 0 → lookup c d ≡ none
  zero-lookup c [] h = refl
  zero-lookup c ((k, v) ∷ d) h = ground (arith, zero-lookup c d)

  pub lookup-remove :
      (c k : String) (d : Dict V)
      → HasKeysOnce d
      → lookup c (remove k d) ≡ (if str_eq k c then none else lookup c d)
  lookup-remove c k [] h = ground arith
  lookup-remove c k ((j, v) ∷ d) h = ground (
    arith,
    h c,
    eq_iff j k,
    eq_iff k c,
    eq_iff j c,
    zero-lookup c d,
    lookup-remove c k d (λ e. ground (arith, h e)),
  )
