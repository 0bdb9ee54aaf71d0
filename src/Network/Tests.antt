-- ===== src/Network/Tests.antt =====
-- companion/tpf2mp/transport_network.py, run on two lines that meet at one station.
use mathlib.Core.List.{Memᴰ}
use tpf2mp.Economy.Records.{whole, integer, integer_within}
use tpf2mp.Network.Edges.{
  NetworkService, NetworkEconomy, Edge, passenger, directed_edges, edges_of_lines, edges_between,
  edges_from, edge_of, town_at, group_edges, sort_groups, edge_key, edge_capacity,
}
use tpf2mp.Network.Paths.{Found, paths, visit, may_follow, follow, transfer}
use tpf2mp.Network.Pins.{
  FreightMetadata, FreightServices, is_target, in_conflict, pinned, pin_path, is_path_digest,
  targets, pin_all,
}
use tpf2mp.Network.Pinned.{pin_path_lem}
use tpf2mp.Network.Search.{IsRoute, paths_lem}
use tpf2mp.Base.{
  ok, ◌<◌, ◌≡◌, ◌↔◌, refl, String, true, false, Option, none, some, List, [], ◌∷◌, length, map,
  if◌then◌else◌, str_eq, keep, ◌==◌,
}
use tpf2mp.Base.Int.{pos}
use tpf2mp.Base.Dict.{Dict, lookup}
use tpf2mp.Base.Sort.{sorted, sort_rows, insert_row}
use tpf2mp.Base.Text.{decimal}

-- Half an hour from stop to stop, every ten minutes.
abbrev line_between : String → String → String → NetworkService
line_between a b town = record {
  market_cid = "m";
  enabled = true;
  stops = some (a ∷ b ∷ []);
  end_towns = some ("west", town);
  has_freight_schema = false;
  journey_seconds = whole (pos 1800);
  headway_seconds = whole (pos 600);
  distance_meters = whole (pos 9000);
  capacity = whole (pos 40);
  cargo_capacities = [];
}

abbrev two_lines : NetworkEconomy
two_lines = record {
  markets = ("m", false) ∷ [];
  services = ("line1", line_between "a" "b" "mid") ∷ ("line2", line_between "b" "c" "east") ∷ [];
}

abbrev arrivals : String → List Edge → Option String
arrivals node path = if str_eq node "c" then some node else none

abbrev network : Dict (List Edge)
network = (directed_edges two_lines passenger).1

network_edges : length (directed_edges two_lines passenger).0 ≡ 4
unfolding directed_edges edges_of_lines edges_between edges_from edge_of town_at sorted sort_rows
    insert_row
network_edges = refl

-- Both legs, with a transfer of eight minutes between them.
one_path : map (λ (f : Found String). f.cost_seconds) (paths arrivals network "a" none) ≡ 4680 ∷ []
unfolding directed_edges edges_of_lines edges_between edges_from edge_of town_at sorted sort_rows
    insert_row group_edges sort_groups edge_key decimal paths visit may_follow follow transfer
    edge_capacity integer integer_within
one_path = refl

-- The path of both legs, as the search reports it.
abbrev reported : Found String
reported = record {
  edges = keep (λ (e : Edge). e.from_stop == 0) (directed_edges two_lines passenger).0;
  accepted = "c";
  cost_seconds = 4680;
  capacity = 40;
}

paths_lem_example :
    Memᴰ reported (paths arrivals network "a" none) ↔ IsRoute arrivals network "a" none reported
paths_lem_example = paths_lem arrivals network "a" none reported

abbrev on_path : Option String → Option FreightMetadata
on_path pin =
    some (record { has_contract = true; path_digest = some "0123abcd"; pinned_path_digest = pin })

abbrev freight_lines : FreightServices
freight_lines = ("a", on_path none) ∷ ("b", none) ∷ ("c", on_path (some "0123abcd")) ∷ []

abbrev pinned_lines : FreightServices
pinned_lines =
    ("a", on_path (some "0123abcd")) ∷ ("b", none) ∷ ("c", on_path (some "0123abcd")) ∷ []

two_legs : pin_path freight_lines "0123abcd" ≡ ok (2, pinned_lines)
unfolding pin_path is_path_digest targets pin_all sorted sort_rows insert_row
two_legs = refl

pin_path_lem_example :
    (0 < 2)
    × ((c : String)
        → (is_target "0123abcd" (lookup c freight_lines) ≡ true
            → (in_conflict "0123abcd" (lookup c freight_lines) ≡ false)
              × (lookup c pinned_lines ≡ some (pinned "0123abcd" (lookup c freight_lines))))
          × (is_target "0123abcd" (lookup c freight_lines) ≡ false
              → lookup c pinned_lines ≡ lookup c freight_lines))
pin_path_lem_example = pin_path_lem freight_lines pinned_lines "0123abcd" 2 two_legs
