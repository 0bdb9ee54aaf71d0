-- ===== src/Match/Leader.antt =====
-- companion/tpf2mp/checkpoint.py, lines 2087 to 2100 and 2106 to 2123: the leader of the ranking, and
-- whether it reaches a target.
use mathlib.Core.List.{Perm}
use mathlib.Core.List.Perm
use tpf2mp.Match.Score.{
  ScoreRow, ScoreModel, scoreboard, ranks_first, larger_first, ranked_winner, first_company,
}
use tpf2mp.Match.End.{leader_reaches}
use tpf2mp.Base.{
  ◌≡◌, refl, ◌∙◌, ap, String, Bool, true, false, ◌||◌, inl, inr, Option, none, some, List, [], ◌∷◌,
  All, any, arith, Bool-cases,
}
use tpf2mp.Base.Int.{ℤ, ◌≤ℤ◌, leb_ℤ}
use tpf2mp.Base.Sort.{sort_rows, insert_row, All-insert_row, sort_rows-perm}

-- The first row has the largest value.
abbrev pub Leads : List ScoreRow → Type 0
Leads [] = Unit
Leads (row ∷ rows) = All (λ (r : ScoreRow). r.model_value_cents ≤ℤ row.model_value_cents) rows

larger_first-true : (x y : ℤ) (rest : Bool) → larger_first x y rest ≡ true → y ≤ℤ x
larger_first-true x y rest h = ground arith

larger_first-false : (x y : ℤ) (rest : Bool) → larger_first x y rest ≡ false → x ≤ℤ y
larger_first-false x y rest h = ground arith

ranks_first-true :
    (a b : ScoreRow) → ranks_first a b ≡ true → b.model_value_cents ≤ℤ a.model_value_cents
unfolding ranks_first
ranks_first-true a b h = larger_first-true a.model_value_cents b.model_value_cents _ h

ranks_first-false :
    (a b : ScoreRow) → ranks_first a b ≡ false → a.model_value_cents ≤ℤ b.model_value_cents
unfolding ranks_first
ranks_first-false a b h = larger_first-false a.model_value_cents b.model_value_cents _ h

below :
    (x y : ℤ) (rows : List ScoreRow)
    → x ≤ℤ y
    → All (λ (r : ScoreRow). r.model_value_cents ≤ℤ x) rows
    → All (λ (r : ScoreRow). r.model_value_cents ≤ℤ y) rows
below x y [] h k = tt
below x y (r ∷ rows) h (p, k) = (omega (arith, h, p), below x y rows h k)

Leads-insert_row :
    (x : ScoreRow) (rows : List ScoreRow) → Leads rows → Leads (insert_row ranks_first x rows)
unfolding insert_row
Leads-insert_row x [] h = tt
Leads-insert_row x (y ∷ ys) h = go (ranks_first x y) refl
  where
    go :
        (b : Bool)
        → ranks_first x y ≡ b
        → Leads (elim b [ true ↦ x ∷ y ∷ ys | false ↦ y ∷ insert_row ranks_first x ys ])
    go true e =
        let first = ranks_first-true x y e in
        (first, below y.model_value_cents x.model_value_cents ys first h)
    go false e =
        All-insert_row ranks_first (λ (r : ScoreRow). r.model_value_cents ≤ℤ y.model_value_cents) x
          ys (ranks_first-false x y e) h

pub sort_rows-Leads : (rows : List ScoreRow) → Leads (sort_rows ranks_first rows)
unfolding sort_rows
sort_rows-Leads [] = tt
sort_rows-Leads (x ∷ rows) = Leads-insert_row x (sort_rows ranks_first rows) (sort_rows-Leads rows)

-- The company of a row of the scoreboard whose model value no other row exceeds, and none where the
-- scoreboard is empty.
abbrev pub IsLeader : List ScoreRow → Option String → Type 0
IsLeader rows none = rows ≡ []
IsLeader rows (some w) =
    (row : ScoreRow) × (others : List ScoreRow) × Perm (row ∷ others) rows
    × All (λ (r : ScoreRow). r.model_value_cents ≤ℤ row.model_value_cents) others
    × (w ≡ row.company_cid)

first_company-IsLeader :
    (rows ranked : List ScoreRow)
    → Perm ranked rows
    → Leads ranked
    → IsLeader rows (first_company ranked)
first_company-IsLeader rows [] perm leads = Perm.eq-nil (Perm.symm perm)
first_company-IsLeader rows (row ∷ others) perm leads = (row, others, perm, leads, refl)

pub ranked_winner-IsLeader :
    (model : ScoreModel) → IsLeader (scoreboard model) (ranked_winner model).0
unfolding ranked_winner
ranked_winner-IsLeader model =
    let rows = scoreboard model in
    first_company-IsLeader rows (sort_rows ranks_first rows) (sort_rows-perm ranks_first rows)
      (sort_rows-Leads rows)

-- Some company's model value reaches the target.
abbrev pub reached : ℤ → List ScoreRow → Bool
reached target rows = any (λ (r : ScoreRow). leb_ℤ target r.model_value_cents) rows

reached-insert_row :
    (target : ℤ) (x : ScoreRow) (rows : List ScoreRow)
    → reached target (insert_row ranks_first x rows)
      ≡ (leb_ℤ target x.model_value_cents || reached target rows)
unfolding insert_row
reached-insert_row target x [] = refl
reached-insert_row target x (y ∷ rows) = ground (arith, reached-insert_row target x rows)

pub reached-sort_rows :
    (target : ℤ) (rows : List ScoreRow)
    → reached target (sort_rows ranks_first rows) ≡ reached target rows
unfolding sort_rows
reached-sort_rows target [] = refl
reached-sort_rows target (x ∷ rows) =
    reached-insert_row target x (sort_rows ranks_first rows)
    ∙ ap (λ b. leb_ℤ target x.model_value_cents || b) (reached-sort_rows target rows)

-- Where no row exceeds a value below the target, none reaches the target.
not_reached :
    (target value : ℤ) (rows : List ScoreRow)
    → leb_ℤ target value ≡ false
    → All (λ (r : ScoreRow). r.model_value_cents ≤ℤ value) rows
    → reached target rows ≡ false
not_reached target value [] h k = refl
not_reached target value (r ∷ rows) h (le, k) = ground (arith, h, le, not_reached target value rows)

-- The leader reaches the target exactly where some company does.
pub leader_reaches-reached :
    (target : ℤ) (rows : List ScoreRow)
    → Leads rows
    → leader_reaches rows target ≡ reached target rows
leader_reaches-reached target [] h = refl
leader_reaches-reached target (row ∷ rows) h =
    elim (Bool-cases (leb_ℤ target row.model_value_cents)) [
      | inl there ↦ rw there refl
      | inr below ↦ rw (below, not_reached target row.model_value_cents rows below h) refl
    ]
