-- ===== src/Network/Routes.antt =====
-- companion/tpf2mp/transport_network.py, lines 98 to 126: what the paths of the search are.
use mathlib.Core.List.{Memᴰ}
use mathlib.Core.Path.{subst}
use tpf2mp.Network.Edges.{Edge, edge_capacity, max_count}
use tpf2mp.Network.Paths.{transfer, is_in, edges_at}
use tpf2mp.Base.{
  ℕ, ◌+◌, ◌-◌, ◌*◌, ◌<◌, ◌≡◌, refl, sym, String, false, Option, none, some, List, [], ◌∷◌, ◌++◌,
  min, map, length, sum_by, arith, str_eq, if◌then◌else◌,
}
use tpf2mp.Base.Dict.{Dict}
use tpf2mp.Base.Keys.{occurs}

-- A chain of edges of the network from one station to another.
abbrev pub IsChain : Dict (List Edge) → String → List Edge → String → Type 0
IsChain by_node s [] t = s ≡ t
IsChain by_node s (e ∷ path) t = Memᴰ e (edges_at by_node s) × IsChain by_node e.to_station path t

abbrev pub lines_of : List Edge → List String
lines_of = map (λ (e : Edge). e.line_cid)

abbrev pub stations_of : List Edge → List String
stations_of = map (λ (e : Edge). e.to_station)

-- The cost of all legs and of a transfer between each two.
abbrev pub unit_transfer : Option String → ℕ
unit_transfer none = 480
unit_transfer (some cargo_type) = if str_eq cargo_type "" then 480 else 1800

abbrev pub route_cost : Option String → List Edge → ℕ
route_cost cargo_type path =
    sum_by (λ (e : Edge). e.cost_seconds) path + unit_transfer cargo_type * (length path - 1)

-- The smallest capacity of a leg.
abbrev pub route_capacity : Option String → List Edge → ℕ
route_capacity cargo_type [] = max_count
route_capacity cargo_type (e ∷ path) =
    min (edge_capacity e.service cargo_type) (route_capacity cargo_type path)

-- A leg without capacity is no leg for cargo.
abbrev pub Carries : Option String → Edge → Type 0
Carries none e = Unit
Carries (some cargo_type) e = 0 < edge_capacity e.service (some cargo_type)

pub IsChain-snoc :
    (by_node : Dict (List Edge)) (s t : String) (path : List Edge) (e : Edge)
    → IsChain by_node s path t
    → Memᴰ e (edges_at by_node t)
    → IsChain by_node s (path ++ e ∷ []) e.to_station
IsChain-snoc by_node s t [] e h m = (subst (λ x. Memᴰ e (edges_at by_node x)) (sym h) m, refl)
IsChain-snoc by_node s t (d ∷ path) e (n, h) m = (n, IsChain-snoc by_node d.to_station t path e h m)

sum_by-snoc :
    (path : List Edge) (e : Edge)
    → sum_by (λ (d : Edge). d.cost_seconds) (path ++ e ∷ [])
      ≡ sum_by (λ (d : Edge). d.cost_seconds) path + e.cost_seconds
sum_by-snoc [] e = omega arith
sum_by-snoc (d ∷ path) e = omega (arith, sum_by-snoc path e)

pub length-snoc : (path : List Edge) (e : Edge) → length (path ++ e ∷ []) ≡ length path + 1
length-snoc [] e = omega arith
length-snoc (d ∷ path) e = omega (arith, length-snoc path e)

unit-transfer :
    (cargo_type : Option String) (d : Edge) (path : List Edge)
    → transfer cargo_type (d ∷ path) ≡ unit_transfer cargo_type
unfolding transfer
unit-transfer none d path = refl
unit-transfer (some cargo_type) d path = refl

no-transfer : (cargo_type : Option String) → transfer cargo_type [] ≡ 0
unfolding transfer
no-transfer cargo_type = refl

module _ (cargo_type : Option String) where
  pub cost-snoc :
      (path : List Edge) (e : Edge)
      → route_cost cargo_type (path ++ e ∷ [])
        ≡ route_cost cargo_type path + e.cost_seconds + transfer cargo_type path
  cost-snoc [] e = grind (arith, no-transfer cargo_type)
  cost-snoc (d ∷ path) e =
      let unit = unit_transfer cargo_type in
      grind (arith, unit-transfer cargo_type d path, sum_by-snoc path e, length-snoc path e)

  pub capacity-snoc :
      (path : List Edge) (e : Edge)
      → route_capacity cargo_type (path ++ e ∷ [])
        ≡ min (route_capacity cargo_type path) (edge_capacity e.service cargo_type)
  capacity-snoc [] e = omega arith
  capacity-snoc (d ∷ path) e = omega (arith, capacity-snoc path e)

pub occurs-snoc :
    (f : Edge → String) (c : String) (path : List Edge) (e : Edge)
    → occurs c (map f (path ++ e ∷ [])) ≡ occurs c (map f path) + occurs c (f e ∷ [])
occurs-snoc f c [] e = omega arith
occurs-snoc f c (d ∷ path) e = omega (arith, occurs-snoc f c path e)

pub is_in-occurs : (c : String) (names : List String) → is_in c names ≡ false → occurs c names ≡ 0
is_in-occurs c [] h = refl
is_in-occurs c (n ∷ names) h = ground (arith, is_in-occurs c names)

pub occurs-is_in : (c : String) (names : List String) → occurs c names ≡ 0 → is_in c names ≡ false
occurs-is_in c [] h = refl
occurs-is_in c (n ∷ names) h = ground (arith, occurs-is_in c names)
