-- ===== src/Match/Winner.antt =====
-- companion/tpf2mp/checkpoint.py, lines 2102 to 2130: how a match ends, and who wins.
use tpf2mp.Match.Score.{ScoreRow, ScoreModel, scoreboard, ranks_first, ranked_winner}
use tpf2mp.Match.End.{
  MatchState, end_reason, solvent_winner, evaluate_match_end, leader_reaches, is_named,
  finished_for,
}
use tpf2mp.Base.{
  ◌≡◌, ◌≢◌, refl, ◌∙◌, ap, String, Bool, true, false, ◌&&◌, ◌⊎◌, inl, inr, Option, none, some, List,
  [], ◌∷◌, arith, str_eq, if◌then◌else◌, Bool-cases, eq_iff,
}
use tpf2mp.Base.Int.{ℤ, pos, leb_ℤ, ltb_ℤ}
use tpf2mp.Base.Sort.{sort_rows}
use tpf2mp.Match.Leader.{
  sort_rows-Leads, IsLeader, ranked_winner-IsLeader, reached, reached-sort_rows,
  leader_reaches-reached,
}

-- After a bankruptcy the winner is the first company of the order that is not the bankrupt one, and the
-- leader where there is none.
abbrev pub Survives : String → List ScoreRow → List String → Option String → Type 0
Survives bankrupt_cid rows [] winner = IsLeader rows winner
Survives bankrupt_cid rows (cid ∷ order) winner =
    ((cid ≡ bankrupt_cid) × Survives bankrupt_cid rows order winner)
    ⊎ ((cid ≢ bankrupt_cid) × (winner ≡ some cid))

solvent_winner-Survives :
    (bankrupt_cid : String) (rows : List ScoreRow) (leader : Option String) (order : List String)
    → IsLeader rows leader
    → Survives bankrupt_cid rows order (solvent_winner bankrupt_cid leader order)
unfolding solvent_winner
solvent_winner-Survives b rows leader [] h = h
solvent_winner-Survives b rows leader (cid ∷ order) h = elim (Bool-cases (str_eq cid b)) [
  | inl same ↦ rw same (inl ((eq_iff cid b).0 same, solvent_winner-Survives b rows leader order h))
  | inr other ↦ rw other (inr (λ e. cc ((eq_iff cid b).1 e, other), refl))
]

-- The bankrupt company, where it has a name.
abbrev pub named : Option String → Option String
named none = none
named (some cid) = if str_eq cid "" then none else some cid

-- A rule that is not 0 and is met.
abbrev pub target_met : MatchState → List ScoreRow → Bool
target_met game rows =
    ltb_ℤ (pos 0) game.valuation_target_cents && reached game.valuation_target_cents rows

abbrev pub limit_met : MatchState → ℤ → Bool
limit_met game epoch = leb_ℤ (pos 1) game.max_epochs && leb_ℤ game.max_epochs epoch

-- The match is finished for a reason, with a winner of which something holds, and otherwise as before.
abbrev pub Finished : MatchState → MatchState → String → (Option String → Type 0) → Type 0
Finished game ended reason Wins =
    (winner : Option String) × Wins winner
    × (ended
        ≡ record game { status = "finished"; finish_reason = some reason; winner_cid = winner })

-- How a match ends: whether it is running, which company is bankrupt, and whether each rule is met.
abbrev pub Ended :
    MatchState
    → MatchState
    → List ScoreRow
    → List String
    → Bool
    → Option String
    → Bool
    → Bool
    → Type 0
Ended game ended rows order false bankrupt target limit = ended ≡ game
Ended game ended rows order true (some b) target limit =
    Finished game ended "bankruptcy" (Survives b rows order)
Ended game ended rows order true none true limit =
    Finished game ended "valuation-target" (IsLeader rows)
Ended game ended rows order true none false true = Finished game ended "epoch-limit" (IsLeader rows)
Ended game ended rows order true none false false = ended ≡ game

module _ (game : MatchState) (model : ScoreModel) (order : List String) (epoch : ℤ) where
  abbrev rows : List ScoreRow
  rows = scoreboard model

  -- The rules of a running match without a bankrupt company.
  rules_end :
      (bankrupt : Option String) (t l : Bool)
      → is_named bankrupt ≡ false
      → (ltb_ℤ (pos 0) game.valuation_target_cents
          && leader_reaches (ranked_winner model).1 game.valuation_target_cents)
        ≡ t
      → (ltb_ℤ (pos 0) game.max_epochs && leb_ℤ game.max_epochs epoch) ≡ l
      → Ended game
          (finished_for game bankrupt
            (ranked_winner model).0
            order
            (end_reason game bankrupt (ranked_winner model).1 epoch))
          rows
          order
          true
          none
          t
          l
  unfolding end_reason
  rules_end bankrupt true l solvent t_eq l_eq =
      rw (solvent, t_eq) ((ranked_winner model).0, ranked_winner-IsLeader model, refl)
  rules_end bankrupt false true solvent t_eq l_eq =
      rw (solvent, t_eq, l_eq) ((ranked_winner model).0, ranked_winner-IsLeader model, refl)
  rules_end bankrupt false false solvent t_eq l_eq = rw (solvent, t_eq, l_eq) refl

  ranking_reaches :
      (ltb_ℤ (pos 0) game.valuation_target_cents
        && leader_reaches (ranked_winner model).1 game.valuation_target_cents)
      ≡ target_met game rows
  unfolding ranked_winner
  ranking_reaches =
      let target = game.valuation_target_cents in
      ap (λ b. ltb_ℤ (pos 0) target && b)
        (leader_reaches-reached target (sort_rows ranks_first rows) (sort_rows-Leads rows)
          ∙ reached-sort_rows target rows)

  limit_reached :
      (ltb_ℤ (pos 0) game.max_epochs && leb_ℤ game.max_epochs epoch) ≡ limit_met game epoch
  limit_reached = ground arith

  bankrupt_end :
      (b : String)
      → str_eq b "" ≡ false
      → Finished game
          (finished_for game
            (some b)
            (ranked_winner model).0
            order
            (end_reason game (some b) (ranked_winner model).1 epoch))
          "bankruptcy"
          (Survives b rows order)
  unfolding end_reason
  bankrupt_end b by_name = rw by_name (
    solvent_winner b (ranked_winner model).0 order,
    solvent_winner-Survives b rows (ranked_winner model).0 order (ranked_winner-IsLeader model),
    refl,
  )

  running_end :
      (bankrupt : Option String)
      → Ended game
          (finished_for game bankrupt
            (ranked_winner model).0
            order
            (end_reason game bankrupt (ranked_winner model).1 epoch))
          rows
          order
          true
          (named bankrupt)
          (target_met game rows)
          (limit_met game epoch)
  running_end none = rules_end none _ _ refl ranking_reaches limit_reached
  running_end (some b) = elim (Bool-cases (str_eq b "")) [
    | inl unnamed ↦
        rw unnamed (rules_end (some b) _ _ (rw unnamed refl) ranking_reaches limit_reached)
    | inr by_name ↦ rw by_name (bankrupt_end b by_name)
  ]

  -- A match that is not running stays as it is. A running match is finished for a bankruptcy where a
  -- company is bankrupt, else for the valuation target where that is above 0 and some company's model
  -- value reaches it, else for the epoch limit where that is above 0 and the epoch has reached it, and
  -- else it stays as it is. After a bankruptcy the first company of the order that is not the bankrupt
  -- one wins. In every other case, and after a bankruptcy where the order has no such company, a company
  -- wins whose model value no other company exceeds, and none where there is no company.
  pub evaluate_match_end_lem :
      (bankrupt : Option String)
      → Ended game
          (evaluate_match_end game model bankrupt order epoch)
          rows
          order
          (str_eq game.status "running")
          (named bankrupt)
          (target_met game rows)
          (limit_met game epoch)
  unfolding evaluate_match_end
  evaluate_match_end_lem bankrupt = elim (Bool-cases (str_eq game.status "running")) [
    | inl running ↦ rw running (running_end bankrupt)
    | inr stopped ↦ rw stopped refl
  ]
