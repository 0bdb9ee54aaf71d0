-- ===== src/Registry/Cached.antt =====
-- `pending_items` of consensus_registry_index.py along the steps of a registry.
use mathlib.Core.Path.{sym}
use tpf2mp.Base.{
  ℕ, ◌<◌, ◌≡◌, refl, ap, ◌∙◌, String, Bool, true, false, not, ◌||◌, Option, none, some, List, [],
  ◌∷◌, ◌++◌, map, keep, length, length-append, arith, leb, ◌==◌, str_eq, if◌then◌else◌, inl, inr,
  ◌⊎◌,
}
use tpf2mp.Base.Sort.{sort_rows}
use tpf2mp.Registry.{
  Trackers, status_of, is_pending_key, row_key, sorted_keys, Entry, scan, pending_keys,
  pending_items,
}

-- `registry[key]["status"] = status`
abbrev set_status : ℕ → String → Trackers → Trackers
set_status key status [] = []
set_status key status ((k, s) ∷ registry) =
    let rest = set_status key status registry in
    if k == key then (k, status) ∷ registry else (k, s) ∷ rest

-- What happens to a registry that only grows, and to the index: a tracker with a new key is added, a
-- tracker leaves the pending ones, or someone asks.
pub data Step : Trackers × Option Entry → Trackers × Option Entry → Type 0 where
  added :
      (registry : Trackers) (cached : Option Entry) (key : ℕ) (status : String)
      → status_of key registry ≡ none
      → Step (registry, cached) (registry ++ (key, status) ∷ [], cached)
  settled :
      (registry : Trackers) (cached : Option Entry) (key : ℕ) (status : String)
      → str_eq status "pending" ≡ false
      → Step (registry, cached) (set_status key status registry, cached)
  asked :
      (registry : Trackers) (cached : Option Entry)
      → Step (registry, cached) (registry, some (pending_items registry cached).1)

pub data Reaches : Trackers × Option Entry → Type 0 where
  start : (registry : Trackers) → Reaches (registry, none)
  next : {u v : Trackers × Option Entry} → Reaches u → Step u v → Reaches v

keep-keep :
    (p q : ℕ → Bool) (keys : List ℕ)
    → ((key : ℕ) → (not (q key) || p key) ≡ true)
    → keep q (keep p keys) ≡ keep q keys
keep-keep p q [] h = refl
keep-keep p q (key ∷ keys) h = ground (arith, keep-keep p q keys h, h key)

length-set_status :
    (key : ℕ) (status : String) (registry : Trackers)
    → length (set_status key status registry) ≡ length registry
length-set_status key status [] = refl
length-set_status key status (row ∷ registry) =
    ground (arith, length-set_status key status registry)

keys-set_status :
    (key : ℕ) (status : String) (registry : Trackers)
    → map row_key (set_status key status registry) ≡ map row_key registry
keys-set_status key status [] = refl
keys-set_status key status (row ∷ registry) = ground (arith, keys-set_status key status registry)

-- No key becomes pending when a tracker settles.
settled_pending :
    (key other : ℕ) (status : String) (registry : Trackers)
    → str_eq status "pending" ≡ false
    → (not (is_pending_key (set_status key status registry) other) || is_pending_key registry other)
      ≡ true
settled_pending key other status [] h = refl
settled_pending key other status (row ∷ registry) h =
    ground (arith, settled_pending key other status registry)

scan-settled :
    (key : ℕ) (status : String) (registry : Trackers)
    → str_eq status "pending" ≡ false
    → keep (is_pending_key (set_status key status registry)) (scan registry)
      ≡ scan (set_status key status registry)
unfolding scan
scan-settled key status registry h =
    let after = is_pending_key (set_status key status registry) in
    keep-keep (is_pending_key registry) after (sorted_keys registry)
      (λ other. settled_pending key other status registry h)
    ∙ ap (λ keys. keep after (sort_rows leb keys)) (sym (keys-set_status key status registry))

-- The entry is of fewer trackers, or its keys hold all that are pending.
abbrev Fits : Trackers → Option Entry → Type 0
Fits registry none = Unit
Fits registry (some cached) =
    (cached.length < length registry)
    ⊎ ((cached.length ≡ length registry)
        × (keep (is_pending_key registry) cached.keys ≡ scan registry))

abbrev FitsIn : Trackers × Option Entry → Type 0
FitsIn (registry, cached) = Fits registry cached

added-Fits :
    (registry : Trackers) (cached : Option Entry) (row : ℕ × String)
    → Fits registry cached
    → Fits (registry ++ row ∷ []) cached
added-Fits registry none row h = tt
added-Fits registry (some c) row (inl less) = inl (omega (arith, length-append registry (row ∷ [])))
added-Fits registry (some c) row (inr (same, kept)) =
    inl (omega (arith, length-append registry (row ∷ [])))

settled-Fits :
    (registry : Trackers) (cached : Option Entry) (key : ℕ) (status : String)
    → str_eq status "pending" ≡ false
    → Fits registry cached
    → Fits (set_status key status registry) cached
settled-Fits registry none key status h f = tt
settled-Fits registry (some c) key status h (inl less) =
    inl (omega (arith, length-set_status key status registry))
settled-Fits registry (some c) key status h (inr (same, kept)) =
    let after = is_pending_key (set_status key status registry) in
    inr (
      omega (arith, length-set_status key status registry),
      sym (
            keep-keep (is_pending_key registry) after c.keys
              (λ other. settled_pending key other status registry h))
          ∙ ap (keep after) kept
          ∙ scan-settled key status registry h,
    )

-- An entry that fits gives the pending keys.
pending_keys-Fits :
    (registry : Trackers) (cached : Option Entry)
    → Fits registry cached
    → pending_keys registry cached ≡ scan registry
pending_keys-Fits registry none h = refl
pending_keys-Fits registry (some c) (inl less) =
    let e : (c.length == length registry) ≡ false = ground arith in rw e refl
pending_keys-Fits registry (some c) (inr (same, kept)) =
    let e : (c.length == length registry) ≡ true = ground arith in rw e kept

scan-pending :
    (registry : Trackers) → keep (is_pending_key registry) (scan registry) ≡ scan registry
unfolding scan
scan-pending registry =
    keep-keep (is_pending_key registry) (is_pending_key registry) (sorted_keys registry)
      (λ key. ground arith)

Step-FitsIn : {u v : Trackers × Option Entry} → Step u v → FitsIn u → FitsIn v
unfolding pending_items
Step-FitsIn (added registry cached key status absent) h = added-Fits registry cached (key, status) h
Step-FitsIn (settled registry cached key status over) h =
    settled-Fits registry cached key status over h
Step-FitsIn (asked registry cached) h = inr (
  refl,
  ap (keep (is_pending_key registry)) (pending_keys-Fits registry cached h) ∙ scan-pending registry,
)

Reaches-FitsIn : {u : Trackers × Option Entry} → Reaches u → FitsIn u
Reaches-FitsIn (start registry) = tt
Reaches-FitsIn (next r step) = Step-FitsIn step (Reaches-FitsIn r)

-- However a growing registry and its index have come about, the index answers with the keys that a
-- fresh scan finds pending.
pub pending_items_lem :
    (registry : Trackers) (cached : Option Entry)
    → Reaches (registry, cached)
    → (pending_items registry cached).0 ≡ scan registry
unfolding pending_items
pending_items_lem registry cached r = pending_keys-Fits registry cached (Reaches-FitsIn r)
