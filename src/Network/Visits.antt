-- ===== src/Network/Visits.antt =====
-- companion/tpf2mp/transport_network.py, lines 106 to 126: what holds at every visit of the search.
use mathlib.Core.List.{Memᴰ}
use tpf2mp.Network.Edges.{Edge}
use tpf2mp.Network.Paths.{Visit, may_follow, follow, edges_at}
use tpf2mp.Network.Routes.{
  IsChain, lines_of, stations_of, route_cost, route_capacity, Carries, IsChain-snoc, cost-snoc,
  capacity-snoc, length-snoc, occurs-snoc, is_in-occurs, occurs-is_in,
}
use tpf2mp.Network.Walks.{Walk, stay, leg}
use tpf2mp.Base.{
  ℕ, suc, ◌+◌, ◌≤◌, ◌≡◌, refl, String, true, Option, none, some, List, [], ◌∷◌, ◌++◌, All, length,
  arith, eq_iff,
}
use tpf2mp.Base.Dict.{Dict}
use tpf2mp.Base.Keys.{occurs}

-- What holds at every visit of the search.
pub record IsVisit (by_node : Dict (List Edge)) (cargo_type : Option String) (start : String)
    (v : Visit) : Type 0 where
  pub chain : IsChain by_node start v.path v.node
  pub lines : (c : String) → occurs c v.used_lines ≡ occurs c (lines_of v.path)
  pub stations : (c : String) → occurs c v.visited ≡ occurs c (start ∷ stations_of v.path)
  pub lines_once : (c : String) → occurs c v.used_lines ≤ 1
  pub stations_once : (c : String) → occurs c v.visited ≤ 1
  pub carries : All (Carries cargo_type) v.path
  pub cost : v.cost ≡ route_cost cargo_type v.path
  pub capacity : v.capacity ≡ route_capacity cargo_type v.path

All-snoc :
    (P : Edge → Type 0) (path : List Edge) (e : Edge) → All P path → P e → All P (path ++ e ∷ [])
All-snoc P [] e h p = (p, tt)
All-snoc P (d ∷ path) e (q, h) p = (q, All-snoc P path e h p)

-- What a leg that the loop takes has passed.
pub record IsLeg (cargo_type : Option String) (v : Visit) (e : Edge) : Type 0 where
  pub new_line : occurs e.line_cid v.used_lines ≡ 0
  pub new_station : occurs e.to_station v.visited ≡ 0
  pub carries : Carries cargo_type e

may_follow-IsLeg :
    (cargo_type : Option String) (v : Visit) (e : Edge)
    → may_follow cargo_type v e ≡ true
    → IsLeg cargo_type v e
unfolding may_follow
may_follow-IsLeg none v e h = record {
  new_line = is_in-occurs e.line_cid v.used_lines (ground (arith, h));
  new_station = is_in-occurs e.to_station v.visited (ground (arith, h));
  carries = tt;
}
may_follow-IsLeg (some cargo_type) v e h = record {
  new_line = is_in-occurs e.line_cid v.used_lines (ground (arith, h));
  new_station = is_in-occurs e.to_station v.visited (ground (arith, h));
  carries = ground (arith, h);
}

pub IsLeg-may_follow :
    (cargo_type : Option String) (v : Visit) (e : Edge)
    → IsLeg cargo_type v e
    → may_follow cargo_type v e ≡ true
unfolding may_follow
IsLeg-may_follow none v e h =
    rw
      (
        occurs-is_in e.line_cid v.used_lines h.new_line,
        occurs-is_in e.to_station v.visited h.new_station,
      )
      refl
IsLeg-may_follow (some cargo_type) v e h =
    rw
      (
        occurs-is_in e.line_cid v.used_lines h.new_line,
        occurs-is_in e.to_station v.visited h.new_station,
      )
      (ground (arith, h.carries))

module _ (by_node : Dict (List Edge)) (cargo_type : Option String) (start : String) where
  pub follow-IsVisit :
      (v : Visit) (e : Edge)
      → IsVisit by_node cargo_type start v
      → Memᴰ e (edges_at by_node v.node)
      → IsLeg cargo_type v e
      → IsVisit by_node cargo_type start (follow cargo_type v e)
  unfolding follow
  follow-IsVisit v e h m l = record {
    chain = IsChain-snoc by_node start v.node v.path e h.chain m;
    lines = λ c. omega (arith, h.lines c, occurs-snoc (λ d. d.line_cid) c v.path e);
    stations = λ c. omega (arith, h.stations c, occurs-snoc (λ d. d.to_station) c v.path e);
    lines_once = λ c. ground (arith, h.lines_once c, l.new_line, eq_iff e.line_cid c);
    stations_once = λ c. ground (arith, h.stations_once c, l.new_station, eq_iff e.to_station c);
    carries = All-snoc (Carries cargo_type) v.path e h.carries l.carries;
    cost = omega (arith, h.cost, cost-snoc cargo_type v.path e);
    capacity = omega (arith, h.capacity, capacity-snoc cargo_type v.path e);
  }

  pub Walk-IsVisit :
      (n : ℕ) (v w : Visit)
      → Walk by_node cargo_type n v w
      → IsVisit by_node cargo_type start v
      → IsVisit by_node cargo_type start w × (length w.path ≤ length v.path + n)
  unfolding follow
  Walk-IsVisit n v w stay h = (h, omega arith)
  Walk-IsVisit (suc n) v w (leg e m may walk) h =
      let (valid, short) =
        Walk-IsVisit n (follow cargo_type v e) w walk
          (follow-IsVisit v e h m (may_follow-IsLeg cargo_type v e may)) in
      (valid, omega (arith, short, length-snoc v.path e))
