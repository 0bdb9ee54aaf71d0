-- ===== src/Match/End.antt =====
-- companion/tpf2mp/checkpoint.py, lines 2102 to 2130: whether a match ends, why, and who wins.
use tpf2mp.Match.Score.{ScoreRow, ScoreModel, ranked_winner}
use tpf2mp.Base.{
  String, Bool, false, not, ◌&&◌, Option, none, some, List, [], ◌∷◌, if◌then◌else◌, or_else, str_eq,
}
use tpf2mp.Base.Int.{ℤ, pos, ltb_ℤ, leb_ℤ}

-- A match with the two rules that end it, where a missing rule is 0.
pub record MatchState : Type 0 where
  pub status : String
  pub finish_reason : Option String
  pub winner_cid : Option String
  pub valuation_target_cents : ℤ
  pub max_epochs : ℤ

pub data Reason : Type 0 where
  bankruptcy valuation_target epoch_limit : Reason

abbrev pub reason_text : Reason → String
reason_text bankruptcy = "bankruptcy"
reason_text valuation_target = "valuation-target"
reason_text epoch_limit = "epoch-limit"

-- `if bankrupt_cid:`
abbrev pub is_named : Option String → Bool
is_named none = false
is_named (some cid) = not (str_eq cid "")

abbrev pub leader_reaches : List ScoreRow → ℤ → Bool
leader_reaches [] target = false
leader_reaches (leader ∷ rows) target = leb_ℤ target leader.model_value_cents

unfoldable pub end_reason : MatchState → Option String → List ScoreRow → ℤ → Option Reason
end_reason game bankrupt_cid ranked epoch =
    if is_named bankrupt_cid
    then some bankruptcy
    else if ltb_ℤ (pos 0) game.valuation_target_cents
        && leader_reaches ranked game.valuation_target_cents
    then some valuation_target
    else if ltb_ℤ (pos 0) game.max_epochs && leb_ℤ game.max_epochs epoch
    then some epoch_limit
    else none

-- The first company of the order that is not the bankrupt one, or else the ranked winner.
unfoldable pub solvent_winner : String → Option String → List String → Option String
solvent_winner bankrupt_cid winner_cid [] = winner_cid
solvent_winner bankrupt_cid winner_cid (candidate ∷ order) =
    let later = solvent_winner bankrupt_cid winner_cid order in
    if str_eq candidate bankrupt_cid then later else some candidate

abbrev pub winner_for : Reason → Option String → Option String → List String → Option String
winner_for bankruptcy bankrupt_cid winner_cid order =
    solvent_winner (or_else bankrupt_cid "") winner_cid order
winner_for _ bankrupt_cid winner_cid order = winner_cid

abbrev pub finished_for :
    MatchState → Option String → Option String → List String → Option Reason → MatchState
finished_for game bankrupt_cid winner_cid order none = game
finished_for game bankrupt_cid winner_cid order (some reason) = record game {
  status = "finished";
  finish_reason = some (reason_text reason);
  winner_cid = winner_for reason bankrupt_cid winner_cid order;
}

unfoldable pub evaluate_match_end :
    MatchState → ScoreModel → Option String → List String → ℤ → MatchState
unfolding end_reason solvent_winner
evaluate_match_end game model bankrupt_cid company_order epoch =
    let ranking = ranked_winner model in
    if not (str_eq game.status "running")
    then game
    else finished_for game bankrupt_cid ranking.0 company_order
        (end_reason game bankrupt_cid ranking.1 epoch)
