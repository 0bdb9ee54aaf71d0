-- ===== src/Registry.antt =====
-- companion/tpf2mp/consensus_registry_index.py, lines 12 to 38: the pending trackers of a registry that
-- only grows, kept from one call to the next. A registry is an association list of keys and trackers,
-- of which the index reads the status alone. One index serves several registries by their identity;
-- here is the entry of one of them. The lock makes each call one step.
pub mod Cached
mod Tests
use tpf2mp.Base.{
  ℕ, String, Bool, true, false, Option, none, some, List, [], ◌∷◌, map, keep, length, leb, ◌==◌,
  str_eq, if◌then◌else◌,
}
use tpf2mp.Base.Sort.{sort_rows}

abbrev pub Trackers : Type 0
Trackers = List (ℕ × String)

-- `registry.get(key, {}).get("status")`
abbrev pub status_of : ℕ → Trackers → Option String
status_of key [] = none
status_of key ((k, status) ∷ registry) =
    let rest = status_of key registry in if k == key then some status else rest

abbrev says_pending : Option String → Bool
says_pending none = false
says_pending (some status) = str_eq status "pending"

abbrev pub is_pending_key : Trackers → ℕ → Bool
is_pending_key registry key = says_pending (status_of key registry)

abbrev row_key : ℕ × String → ℕ
row_key row = row.0

-- `sorted(registry)`
abbrev pub sorted_keys : Trackers → List ℕ
sorted_keys registry = sort_rows leb (map row_key registry)

-- `self._pending[identity]`
pub record Entry : Type 0 where
  pub length : ℕ
  pub keys : List ℕ

-- `for key in sorted(registry) if ... == "pending"`
unfoldable pub scan : Trackers → List ℕ
unfolding sort_rows
scan registry = keep (is_pending_key registry) (sorted_keys registry)

abbrev pub pending_keys : Trackers → Option Entry → List ℕ
pending_keys registry none = scan registry
pending_keys registry (some cached) =
    if cached.length == length registry
    then keep (is_pending_key registry) cached.keys
    else scan registry

-- `pending_items`: the keys whose trackers it returns, and the new entry.
unfoldable pub pending_items : Trackers → Option Entry → List ℕ × Entry
unfolding scan
pending_items registry cached =
    let keys = pending_keys registry cached in
    (keys, record { length = length registry; keys = keys })

abbrev first : List ℕ → Option ℕ
first [] = none
first (key ∷ keys) = some key

-- `pending`
abbrev pub pending : Trackers → Option Entry → Option ℕ
pending registry cached = first (pending_items registry cached).0
