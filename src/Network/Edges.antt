-- ===== src/Network/Edges.antt =====
-- companion/tpf2mp/transport_network.py, lines 18 to 95: the directed edges that the services give, and
-- the edges that leave a station. `_integer` is the one of the economy, with this file's own reading of
-- floats and texts in a `Value`. A service keeps of its metadata what is read here: the stops where they
-- are a list, the two end towns where they are a list of two, and its capacities by cargo type.
use tpf2mp.Economy.Records.{Value, absent, integer_within}
use tpf2mp.Base.{
  ℕ, ◌+◌, ◌-◌, ◌*◌, ◌/◌, max, String, Bool, true, false, not, ◌&&◌, ◌||◌, Option, none, some, List,
  [], ◌∷◌, ◌++◌, ◌==◌, ltb, if◌then◌else◌, or_else, length,
}
use tpf2mp.Base.Dict.{Dict, lookup, insert, keys}
use tpf2mp.Base.Sort.{sort_rows, sorted, leb_str}
use tpf2mp.Base.Text.{◌<>◌, decimal}

abbrev pub max_count : ℕ
max_count = 1_000_000_000

pub data Kind : Type 0 where
  passenger cargo : Kind

pub record NetworkService : Type 0 where
  pub market_cid : String
  pub enabled : Bool
  pub stops : Option (List String)
  pub end_towns : Option (String × String)
  pub has_freight_schema : Bool
  pub journey_seconds : Value
  pub headway_seconds : Value
  pub distance_meters : Value
  pub capacity : Value
  pub cargo_capacities : Dict Value

-- Of a market only its kind is read: whether it is cargo.
pub record NetworkEconomy : Type 0 where
  pub markets : Dict Bool
  pub services : Dict NetworkService

unfoldable pub edge_capacity : NetworkService → Option String → ℕ
edge_capacity service none = integer_within service.capacity 0 0 max_count
edge_capacity service (some cargo_type) =
    integer_within (or_else (lookup cargo_type service.cargo_capacities) absent) 0 0 max_count

pub record Edge : Type 0 where
  pub line_cid : String
  pub market_cid : String
  pub from_station : String
  pub to_station : String
  pub from_stop : ℕ
  pub to_stop : ℕ
  pub from_town : Option String
  pub to_town : Option String
  pub cost_seconds : ℕ
  pub distance_meters : ℕ
  pub service : NetworkService

abbrev is_some {ℓ} : {A : Type ℓ} → Option A → Bool
is_some none = false
is_some (some a) = true

-- By the kind of the network, and whether the service's market is there and is cargo.
abbrev pub is_eligible : Kind → NetworkService → Option Bool → Bool
is_eligible cargo service market = service.has_freight_schema
is_eligible passenger service none = false
is_eligible passenger service (some is_cargo) = not is_cargo && is_some service.end_towns

-- The end town at a stop of `count`.
unfoldable pub town_at : Kind → Option (String × String) → ℕ → ℕ → Option String
town_at cargo towns index count = none
town_at passenger none index count = none
town_at passenger (some towns) index count =
    if index == 0 then some towns.0 else if index == count - 1 then some towns.1 else none

abbrev distance_of : ℕ → ℕ → ℕ
distance_of a b = (a - b) + (b - a)

unfoldable pub edge_of : Kind → String → NetworkService → ℕ → ℕ × String → ℕ × String → Edge
unfolding town_at
edge_of kind line_cid service count (i, from_station) (j, to_station) =
    let segments = distance_of i j in
    let total = count - 1 in
    record {
      line_cid = line_cid;
      market_cid = service.market_cid;
      from_station = from_station;
      to_station = to_station;
      from_stop = i;
      to_stop = j;
      from_town = town_at kind service.end_towns i count;
      to_town = town_at kind service.end_towns j count;
      cost_seconds =
          max 30 (integer_within service.journey_seconds 3600 30 604800 * segments / total)
          + integer_within service.headway_seconds 1800 30 86400 / 2;
      distance_meters = integer_within service.distance_meters 0 0 max_count * segments / total;
      service = service;
    }

-- The stops with their indices, from `i` on.
abbrev pub numbered : ℕ → List String → List (ℕ × String)
numbered i [] = []
numbered i (s ∷ ss) = (i, s) ∷ numbered (i + 1) ss

unfoldable pub edges_from :
    Kind → String → NetworkService → ℕ → ℕ × String → List (ℕ × String) → List Edge
unfolding edge_of
edges_from kind line_cid service count from [] = []
edges_from kind line_cid service count from (to ∷ stops) =
    let rest = edges_from kind line_cid service count from stops in
    if from.0 == to.0 then rest else edge_of kind line_cid service count from to ∷ rest

unfoldable pub edges_between :
    Kind → String → NetworkService → List (ℕ × String) → List (ℕ × String) → List Edge
unfolding edges_from
edges_between kind line_cid service all_stops [] = []
edges_between kind line_cid service all_stops (from ∷ stops) =
    edges_from kind line_cid service (length all_stops) from all_stops
    ++ edges_between kind line_cid service all_stops stops

abbrev stops_edges : Kind → String → NetworkService → Option Bool → Option (List String) → List Edge
stops_edges kind line_cid service market none = []
stops_edges kind line_cid service market (some stops) =
    let all_stops = numbered 0 stops in
    if not service.enabled || ltb (length stops) 2 || not (is_eligible kind service market)
    then []
    else edges_between kind line_cid service all_stops all_stops

-- The edges of one service; nothing for a line that is not there.
abbrev pub line_edges : NetworkEconomy → Kind → String → Option NetworkService → List Edge
line_edges economy kind line_cid none = []
line_edges economy kind line_cid (some service) =
    stops_edges kind line_cid service (lookup service.market_cid economy.markets) service.stops

unfoldable pub edges_of_lines : NetworkEconomy → Kind → List String → List Edge
unfolding edges_between
edges_of_lines economy kind [] = []
edges_of_lines economy kind (line_cid ∷ lines) =
    line_edges economy kind line_cid (lookup line_cid economy.services)
    ++ edges_of_lines economy kind lines

-- `by_node.setdefault(node, []).append(edge)`
abbrev append_at : Edge → Dict (List Edge) → Dict (List Edge)
append_at edge by_node =
    insert edge.from_station (or_else (lookup edge.from_station by_node) [] ++ edge ∷ []) by_node

unfoldable pub group_edges : List Edge → Dict (List Edge) → Dict (List Edge)
group_edges [] by_node = by_node
group_edges (edge ∷ edges) by_node = group_edges edges (append_at edge by_node)

unfoldable pub edge_key : Edge → String
unfolding decimal
edge_key edge =
    edge.line_cid
    <> "|"
    <> edge.to_station
    <> "|"
    <> decimal edge.from_stop
    <> "|"
    <> decimal edge.to_stop

-- `rows.sort(key=...)` for all rows.
unfoldable pub sort_groups : Dict (List Edge) → Dict (List Edge)
unfolding edge_key
sort_groups [] = []
sort_groups ((node, rows) ∷ by_node) =
    (node, sort_rows (λ a b. leb_str (edge_key a) (edge_key b)) rows) ∷ sort_groups by_node

unfoldable pub directed_edges : NetworkEconomy → Kind → List Edge × Dict (List Edge)
unfolding edges_of_lines group_edges sort_groups
directed_edges economy kind =
    let edges = edges_of_lines economy kind (sorted (keys economy.services)) in
    (edges, sort_groups (group_edges edges []))
