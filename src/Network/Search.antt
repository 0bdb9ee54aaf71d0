-- ===== src/Network/Search.antt =====
-- companion/tpf2mp/transport_network.py, lines 98 to 126: the paths that the search finds, and no other.
use mathlib.Core.List.{Memᴰ, append-nil, append_assoc}
use mathlib.Core.Path.{subst}
use tpf2mp.Network.Edges.{Edge}
use tpf2mp.Network.Paths.{Visit, Found, follow, acceptance, start_visit, max_legs, paths}
use tpf2mp.Network.Walks.{Walk, stay, leg, Finds, visit-Finds, visit-Mem_of}
use tpf2mp.Network.Routes.{IsChain, lines_of, stations_of, route_cost, route_capacity, Carries}
use tpf2mp.Network.Visits.{IsVisit, IsLeg, IsLeg-may_follow, Walk-IsVisit, follow-IsVisit}
use tpf2mp.Base.{
  ℕ, zero, suc, ◌+◌, ◌≤◌, ◌≡◌, ◌↔◌, refl, sym, ap, ◌∙◌, String, Option, some, List, [], ◌∷◌, ◌++◌,
  All, length, arith, eq_iff,
}
use tpf2mp.Base.Dict.{Dict}
use tpf2mp.Base.Keys.{occurs}

-- A route from `start`: one to four edges that follow each other, with no line twice and no station twice,
-- along edges that carry the cargo, which `accept` accepts; its cost and its capacity are those of its legs.
pub record IsRoute {A : Type 0} (accept : String → List Edge → Option A)
    (by_node : Dict (List Edge)) (start : String) (cargo_type : Option String) (f : Found A)
    : Type 0 where
  pub last : String
  pub chain : IsChain by_node start f.edges last
  pub some_leg : 1 ≤ length f.edges
  pub four_legs : length f.edges ≤ 4
  pub lines_once : (c : String) → occurs c (lines_of f.edges) ≤ 1
  pub stations_once : (c : String) → occurs c (start ∷ stations_of f.edges) ≤ 1
  pub carries : All (Carries cargo_type) f.edges
  pub accepted : accept last f.edges ≡ some f.accepted
  pub cost : f.cost_seconds ≡ route_cost cargo_type f.edges
  pub capacity : f.capacity ≡ route_capacity cargo_type f.edges

start-IsVisit :
    (by_node : Dict (List Edge)) (cargo_type : Option String) (start : String)
    → IsVisit by_node cargo_type start (start_visit start)
start-IsVisit by_node cargo_type start = record {
  chain = refl;
  lines = λ c. refl;
  stations = λ c. refl;
  lines_once = λ c. omega arith;
  stations_once = λ c. ground arith;
  carries = tt;
  cost = ground arith;
  capacity = refl;
}

module _ {A : Type 0} (accept : String → List Edge → Option A) (by_node : Dict (List Edge))
    (start : String) (cargo_type : Option String) where
  acceptance-accept :
      (node : String) (path : List Edge) (a : A)
      → acceptance accept node path ≡ some a
      → (1 ≤ length path) × (accept node path ≡ some a)
  acceptance-accept node [] a h = absurd (cc)
  acceptance-accept node (e ∷ path) a h = (omega arith, h)

  accept-acceptance :
      (node : String) (path : List Edge) (a : A)
      → 1 ≤ length path
      → accept node path ≡ some a
      → acceptance accept node path ≡ some a
  accept-acceptance node [] a l h = absurd (omega (arith, l))
  accept-acceptance node (e ∷ path) a l h = h

  Finds-IsRoute :
      (f : Found A)
      → Finds by_node cargo_type accept max_legs (start_visit start) f
      → IsRoute accept by_node start cargo_type f
  Finds-IsRoute f h =
      let w = h.last in
      let (valid, short) =
        Walk-IsVisit by_node cargo_type start max_legs (start_visit start) w h.walk
          (start-IsVisit by_node cargo_type start) in
      let (nonempty, accepted) = acceptance-accept w.node w.path f.accepted h.accepted in
      subst (IsRoute accept by_node start cargo_type) (sym h.found) (record {
        last = w.node;
        chain = valid.chain;
        some_leg = nonempty;
        four_legs = short;
        lines_once = λ c. omega (arith, valid.lines c, valid.lines_once c);
        stations_once = λ c. omega (arith, valid.stations c, valid.stations_once c);
        carries = valid.carries;
        accepted = accepted;
        cost = valid.cost;
        capacity = valid.capacity;
      })

  Found_eq :
      (f g : Found A)
      → f.edges ≡ g.edges
      → f.accepted ≡ g.accepted
      → f.cost_seconds ≡ g.cost_seconds
      → f.capacity ≡ g.capacity
      → f ≡ g
  Found_eq f g a b c d = ground (arith, a, b, c, d)

  -- A route is walked leg by leg from a visit whose lines and stations it avoids.
  reach_last :
      (n : ℕ) (v : Visit) (path : List Edge) (last : String)
      → length path ≤ n
      → IsVisit by_node cargo_type start v
      → IsChain by_node v.node path last
      → ((c : String) → occurs c v.used_lines + occurs c (lines_of path) ≤ 1)
      → ((c : String) → occurs c v.visited + occurs c (stations_of path) ≤ 1)
      → All (Carries cargo_type) path
      → (w : Visit) × Walk by_node cargo_type n v w × (w.path ≡ v.path ++ path) × (w.node ≡ last)
  unfolding follow
  reach_last n v [] last short h chain lines stations carries =
      (v, stay, sym (append-nil v.path), chain)
  reach_last zero v (e ∷ path) last short h chain lines stations carries =
      absurd (omega (arith, short))
  reach_last (suc n) v (e ∷ path) last short h (m, chain) lines stations (c, carries) =
      let step : IsLeg cargo_type v e = record {
        new_line = ground (arith, lines e.line_cid, eq_iff e.line_cid e.line_cid);
        new_station = ground (arith, stations e.to_station, eq_iff e.to_station e.to_station);
        carries = c;
      } in
      let (w, walk, path_eq, node_eq) =
        reach_last n (follow cargo_type v e) path last (omega (arith, short))
          (follow-IsVisit by_node cargo_type start v e h m step) chain (λ d. omega (arith, lines d))
          (λ d. omega (arith, stations d)) carries in
      (
        w,
        leg e m (IsLeg-may_follow cargo_type v e step) walk,
        path_eq ∙ append_assoc v.path (e ∷ []) path,
        node_eq,
      )

  IsRoute-Finds :
      (f : Found A)
      → IsRoute accept by_node start cargo_type f
      → Finds by_node cargo_type accept max_legs (start_visit start) f
  IsRoute-Finds f r =
      let first = start_visit start in
      let (w, walk, path_eq, node_eq) =
        reach_last max_legs first f.edges r.last r.four_legs
          (start-IsVisit by_node cargo_type start) r.chain (λ c. omega (arith, r.lines_once c))
          (λ c. omega (arith, r.stations_once c)) r.carries in
      let (valid, _) =
        Walk-IsVisit by_node cargo_type start max_legs first w walk
          (start-IsVisit by_node cargo_type start) in
      record {
        last = w;
        walk = walk;
        accepted =
            rw (path_eq, node_eq)
              (accept-acceptance r.last f.edges f.accepted r.some_leg r.accepted);
        found =
            let cost : f.cost_seconds ≡ w.cost =
              rw valid.cost (r.cost ∙ ap (route_cost cargo_type) (sym path_eq)) in
            let capacity : f.capacity ≡ w.capacity =
              rw valid.capacity (r.capacity ∙ ap (route_capacity cargo_type) (sym path_eq)) in
            Found_eq f
              (record {
                edges = w.path;
                accepted = f.accepted;
                cost_seconds = w.cost;
                capacity = w.capacity;
              })
              (sym path_eq) refl cost capacity;
      }

  -- The search finds exactly the routes from the start: one to four edges that follow each other,
  -- with no line twice and no station twice, along edges that carry the cargo, accepted by the
  -- caller, with the cost and the capacity of their legs.
  pub paths_lem :
      (f : Found A)
      → Memᴰ f (paths accept by_node start cargo_type) ↔ IsRoute accept by_node start cargo_type f
  unfolding paths
  paths_lem f = (
    λ m. Finds-IsRoute f (visit-Finds by_node cargo_type accept max_legs (start_visit start) f m),
    λ r. visit-Mem_of by_node cargo_type accept max_legs (start_visit start) f (IsRoute-Finds f r),
  )
