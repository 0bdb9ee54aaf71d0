-- ===== src/Freight/Transport/Staging.antt =====
-- The first loop of `apply_transport` in freight_transport.py: claims on sources, and cursors.
use tpf2mp.Base.{
  ℕ, ◌+◌, ◌≤◌, ◌≡◌, String, Bool, ◌&&◌, List, [], ◌∷◌, map, arith, sum_by, str_eq, if◌then◌else◌,
  ok, ok_of->>=, Option-cases, inl, inr, eq_iff, All,
}
use tpf2mp.Base.Dict.{lookup}
use tpf2mp.Freight.Records.{Line, State}
use tpf2mp.Freight.Transport.{
  Staged, staged_of, from_industry, available, prior, Aggregate, check_line, reserve, stage,
}

-- What a staged line takes from a source of a cargo.
abbrev pub claim : String → String → Staged → ℕ
claim s c staged =
    if from_industry staged.contract
      && str_eq staged.contract.source_industry_cid s
      && str_eq staged.contract.cargo_type c
    then staged.boarded_delta
    else 0

module _ (texts_ok : String → Line → Bool) (state : State) where
  stage-step :
      (aggregate : Aggregate) (line : String × Line) (lines : List (String × Line))
      (staged : List Staged)
      → stage texts_ok state aggregate (line ∷ lines) ≡ ok staged
      → (next : Aggregate) × (rest : List Staged) × (reserve texts_ok state
            (staged_of state line)
            aggregate
          ≡ ok next)
        × (stage texts_ok state next lines ≡ ok rest)
        × (staged ≡ staged_of state line ∷ rest)
        × (check_line texts_ok state line ≡ ok tt)
  unfolding stage
  stage-step aggregate line lines staged h =
      let (checked, after_check, c) = ok_of->>= (check_line texts_ok state line) _ h in
      let (next, after_reserve, r) =
        ok_of->>= (reserve texts_ok state (staged_of state line) aggregate) _ after_check in
      let (rest, last, s) = ok_of->>= (stage texts_ok state next lines) _ after_reserve in
      (next, rest, r, s, cc, c)

  reserve-within :
      (staged : Staged) (aggregate next : Aggregate) (s c : String)
      → reserve texts_ok state staged aggregate ≡ ok next
      → aggregate s c ≤ available state.industries s c
      → (next s c ≡ aggregate s c + claim s c staged) × (next s c ≤ available state.industries s c)
  unfolding reserve
  reserve-within staged aggregate next s c h k =
      ground
        (arith, eq_iff staged.contract.source_industry_cid s, eq_iff staged.contract.cargo_type c)

  -- Every line is staged, in the given order.
  pub stage-map :
      (aggregate : Aggregate) (lines : List (String × Line)) (staged : List Staged)
      → stage texts_ok state aggregate lines ≡ ok staged
      → staged ≡ map (staged_of state) lines
  unfolding stage
  stage-map aggregate [] staged h = cc
  stage-map aggregate (line ∷ lines) staged h =
      let (next, rest, r, s, e, checked) = stage-step aggregate line lines staged h in
      let tail = stage-map next lines rest s in cc

  -- Together the lines take no more than each source has.
  pub stage-within :
      (aggregate : Aggregate) (lines : List (String × Line)) (staged : List Staged) (s c : String)
      → stage texts_ok state aggregate lines ≡ ok staged
      → aggregate s c ≤ available state.industries s c
      → aggregate s c + sum_by (claim s c) staged ≤ available state.industries s c
  unfolding stage
  stage-within aggregate [] staged s c h k = let e : staged ≡ [] = cc in rw e (omega arith)
  stage-within aggregate (line ∷ lines) staged s c h k =
      let (next, rest, r, t, e, checked) = stage-step aggregate line lines staged h in
      let reserved = reserve-within (staged_of state line) aggregate next s c r k in
      rw e (omega (arith, reserved, stage-within next lines rest s c t reserved.1))

  -- A staged line's cursor counts at least what the line's cursor counted before.
  abbrev pub Grows : Staged → Type 0
  Grows staged =
      ((prior (lookup staged.line_cid state.transport_cursors)).0 ≤ staged.cursor.boarded_units)
      × ((prior (lookup staged.line_cid state.transport_cursors)).1 ≤ staged.cursor.delivered_units)

  check_line-Grows :
      (line_cid : String) (row : Line)
      → check_line texts_ok state (line_cid, row) ≡ ok tt
      → Grows (staged_of state (line_cid, row))
  unfolding check_line
  check_line-Grows line_cid row h =
      let cursor = lookup line_cid state.transport_cursors in
      elim (Option-cases cursor) [
        | inl fresh ↦ rw fresh (omega arith, omega arith)
        | inr (old, known) ↦ ground (arith, h, known)
      ]

  pub stage-Grows :
      (aggregate : Aggregate) (lines : List (String × Line)) (staged : List Staged)
      → stage texts_ok state aggregate lines ≡ ok staged
      → All Grows staged
  unfolding stage
  stage-Grows aggregate [] staged h = let e : staged ≡ [] = cc in rw e tt
  stage-Grows aggregate ((line_cid, row) ∷ lines) staged h =
      let (next, rest, r, s, e, checked) = stage-step aggregate (line_cid, row) lines staged h in
      rw e (check_line-Grows line_cid row checked, stage-Grows next lines rest s)
