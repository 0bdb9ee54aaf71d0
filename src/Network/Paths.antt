-- ===== src/Network/Paths.antt =====
-- companion/tpf2mp/transport_network.py, lines 98 to 126: the search for paths. `visit` counts the legs
-- that a path may still get, `MAX_LEGS` less its length; the sets of lines and stations are lists.
-- `accept` is the callback of the caller.
use tpf2mp.Network.Edges.{Edge, edge_capacity, max_count}
use tpf2mp.Base.{
  ℕ, zero, suc, ◌+◌, min, String, Bool, true, false, ◌&&◌, ◌||◌, Option, none, some, List, [], ◌∷◌,
  ◌++◌, not, ltb, if◌then◌else◌, or_else, str_eq, any,
}
use tpf2mp.Base.Dict.{Dict, lookup}

abbrev pub max_legs : ℕ
max_legs = 4

-- The arguments of `visit`.
pub record Visit : Type 0 where
  pub node : String
  pub path : List Edge
  pub used_lines : List String
  pub visited : List String
  pub cost : ℕ
  pub capacity : ℕ

pub record Found (A : Type 0) : Type 0 where
  pub edges : List Edge
  pub accepted : A
  pub cost_seconds : ℕ
  pub capacity : ℕ

abbrev pub is_in : String → List String → Bool
is_in name names = any (λ n. str_eq n name) names

-- 30 minutes for cargo, unless its name is empty, 8 for passengers, none before the first leg.
unfoldable pub transfer : Option String → List Edge → ℕ
transfer cargo_type [] = 0
transfer none (e ∷ path) = 480
transfer (some cargo_type) (e ∷ path) = if str_eq cargo_type "" then 480 else 1800

-- Whether the loop goes on along an edge, with the two `continue`s.
unfoldable pub may_follow : Option String → Visit → Edge → Bool
may_follow none v edge = not (is_in edge.line_cid v.used_lines || is_in edge.to_station v.visited)
may_follow (some cargo_type) v edge =
    not (is_in edge.line_cid v.used_lines || is_in edge.to_station v.visited)
    && ltb 0 (edge_capacity edge.service (some cargo_type))

unfoldable pub follow : Option String → Visit → Edge → Visit
unfolding transfer
follow cargo_type v edge = record {
  node = edge.to_station;
  path = v.path ++ edge ∷ [];
  used_lines = edge.line_cid ∷ v.used_lines;
  visited = edge.to_station ∷ v.visited;
  cost = v.cost + edge.cost_seconds + transfer cargo_type v.path;
  capacity = min v.capacity (edge_capacity edge.service cargo_type);
}

abbrev pub start_visit : String → Visit
start_visit start = record {
  node = start;
  path = [];
  used_lines = [];
  visited = start ∷ [];
  cost = 0;
  capacity = max_count;
}

abbrev pub edges_at : Dict (List Edge) → String → List Edge
edges_at by_node node = or_else (lookup node by_node) []

module _ {A : Type 0} (accept : String → List Edge → Option A) where
  -- `accept(node, path) if path else None`
  abbrev pub acceptance : String → List Edge → Option A
  acceptance node [] = none
  acceptance node (e ∷ path) = accept node (e ∷ path)

  -- What a visit adds to the result before it goes on.
  abbrev pub found_here : Visit → Option A → List (Found A)
  found_here v none = []
  found_here v (some accepted) =
      record { edges = v.path; accepted = accepted; cost_seconds = v.cost; capacity = v.capacity }
      ∷ []

  -- The loop over the edges, where `go` is the recursive call.
  abbrev pub along : (Visit → List (Found A)) → Option String → Visit → List Edge → List (Found A)
  along go cargo_type v [] = []
  along go cargo_type v (edge ∷ edges) = elim (may_follow cargo_type v edge) [
    | true ↦ go (follow cargo_type v edge) ++ along go cargo_type v edges
    | false ↦ along go cargo_type v edges
  ]

  unfoldable pub visit : ℕ → Dict (List Edge) → Option String → Visit → List (Found A)
  unfolding may_follow follow
  visit zero by_node cargo_type v = found_here v (acceptance v.node v.path)
  visit (suc legs) by_node cargo_type v =
      found_here v (acceptance v.node v.path)
      ++ along (visit legs by_node cargo_type) cargo_type v (edges_at by_node v.node)

  unfoldable pub paths : Dict (List Edge) → String → Option String → List (Found A)
  unfolding visit
  paths by_node start cargo_type = visit max_legs by_node cargo_type (start_visit start)
