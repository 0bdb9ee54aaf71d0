-- ===== src/Freight/Production/Epoch.antt =====
-- The loop of `advance` in freight.py over all industries.
use mathlib.Core.Path.{subst, sym}
use text.Mathlib.TextPositions.{eq_refl}
use tpf2mp.Base.{
  ℕ, ◌+◌, ◌≤◌, ◌≡◌, refl, String, true, false, Option, none, some, List, [], ◌∷◌, arith, eq_iff,
  str_eq, if◌then◌else◌, Bool-cases, Option-cases, inl, inr, ok, ◌∙◌,
}
use tpf2mp.Base.Dict.{lookup, keys, lookup-insert}
use tpf2mp.Base.Keys.{
  occurs, HasKeysOnce, lookup-occurs_zero, lookup-occurs_pos, occurs-keys-insert,
}
use tpf2mp.Base.Sort.{leb_str, sorted, sum_by-sort_rows}
use tpf2mp.Freight.Records.{max_amount, Industry, IndustrySummary, AdvanceSummary, State}
use tpf2mp.Freight.Protocol.Sound.{IsIndustry, IsSound}
use tpf2mp.Freight.Production.{
  advance_industry, advance_one, advance_all, advance, advanced, first_round, summary_of, Round,
  Books,
}
use tpf2mp.Freight.Production.Choice.{Advanced, advance_industry-Advanced}

occurs-sorted : (c : String) (names : List String) → occurs c (sorted names) ≡ occurs c names
unfolding sorted
occurs-sorted c names = sum_by-sort_rows leb_str (λ name. if str_eq name c then 1 else 0) names

-- One industry's turn leaves the others alone.
module _ (period : ℕ) (c : String) where
  turn_of_another :
      (cid : String) (round : Round)
      → str_eq cid c ≡ false
      → (lookup c (advance_one period cid round).industries ≡ lookup c round.industries)
        × (lookup c (advance_one period cid round).summaries ≡ lookup c round.summaries)
  turn_of_another cid round h = elim (Option-cases (lookup cid round.industries)) [
    | inl absent ↦ rw (advance_one, absent) (refl, refl)
    | inr (industry, present) ↦
        rw (advance_one, present) (rw lookup-insert (rw h refl), rw lookup-insert (rw h refl))
  ]

  others_kept :
      (cids : List String) (round : Round)
      → occurs c cids ≡ 0
      → (lookup c (advance_all period cids round).industries ≡ lookup c round.industries)
        × (lookup c (advance_all period cids round).summaries ≡ lookup c round.summaries)
  unfolding advance_all
  others_kept [] round h = (refl, refl)
  others_kept (cid ∷ cids) round h =
      let other = turn_of_another cid round (ground arith) in
      let rest = others_kept cids (advance_one period cid round) (ground arith) in
      (rest.0 ∙ other.0, rest.1 ∙ other.1)

  turn_of_itself :
      (round : Round) (industry : Industry)
      → lookup c round.industries ≡ some industry
      → let (work, summary) =
          advance_industry period (record { industry = industry; books = round.books }) in
        (lookup c (advance_one period c round).industries ≡ some work.industry)
        × (lookup c (advance_one period c round).summaries ≡ some summary)
  turn_of_itself round industry present =
      rw (advance_one, present) (rw lookup-insert (rw eq_refl), rw lookup-insert (rw eq_refl))

  -- Each industry has one turn.
  one_turn :
      (cids : List String) (round : Round) (industry : Industry)
      → occurs c cids ≡ 1
      → lookup c round.industries ≡ some industry
      → (books : Books) × (lookup c (advance_all period cids round).industries
          ≡ some
              (advance_industry period (record { industry = industry; books = books })).0.industry)
        × (lookup c (advance_all period cids round).summaries
            ≡ some (advance_industry period (record { industry = industry; books = books })).1)
  unfolding advance_all
  one_turn [] round industry h present = absurd (omega arith)
  one_turn (cid ∷ cids) round industry h present = elim (Bool-cases (str_eq cid c)) [
    | inl itself ↦
        let same : c ≡ cid = sym ((eq_iff cid c).0 itself) in
        let rest = others_kept cids (advance_one period c round) (ground arith) in
        let now = turn_of_itself round industry present in
        subst
          (λ k.
            (books : Books) × (lookup c
                (advance_all period cids (advance_one period k round)).industries
              ≡ some
                  (advance_industry period
                    (record { industry = industry; books = books })).0.industry)
            × (lookup c (advance_all period cids (advance_one period k round)).summaries
                ≡ some (advance_industry period (record { industry = industry; books = books })).1))
          same (round.books, rest.0 ∙ now.0, rest.1 ∙ now.1)
    | inr other ↦
        one_turn cids (advance_one period cid round) industry (ground arith)
          ((turn_of_another cid round other).0 ∙ present)
  ]

-- What became of an industry in an epoch. Where there was none there is none.
abbrev pub AdvancedIn : ℕ → Option Industry → Option Industry → Option IndustrySummary → Type 0
AdvancedIn period none after summary = after ≡ none
AdvancedIn period (some before) (some after) (some summary) = Advanced period before after summary
AdvancedIn period (some before) _ _ = ⊥

sound_of-AdvancedIn :
    (period : ℕ) (before after : Option Industry) (summary : Option IndustrySummary) (v : Industry)
    → AdvancedIn period before after summary
    → after ≡ some v
    → IsIndustry v
sound_of-AdvancedIn period none after summary v h e = absurd (cc)
sound_of-AdvancedIn period (some before) none summary v h e = absurd (cc)
sound_of-AdvancedIn period (some before) (some after) none v h e = elim h [ ]
sound_of-AdvancedIn period (some before) (some after) (some summary) v h e =
    let same : after ≡ v = cc in subst IsIndustry same h.sound

occurs-keys-advance_all :
    (period : ℕ) (c : String) (cids : List String) (round : Round)
    → occurs c (keys (advance_all period cids round).industries) ≡ occurs c (keys round.industries)
unfolding advance_all
occurs-keys-advance_all period c [] round = refl
occurs-keys-advance_all period c (cid ∷ cids) round =
    occurs-keys-advance_all period c cids (advance_one period cid round)
    ∙ elim (Option-cases (lookup cid round.industries)) [
      | inl absent ↦ rw (advance_one, absent) refl
      | inr (industry, present) ↦
          rw (advance_one, present) (occurs-keys-insert c cid _ industry round.industries present)
    ]

module _ (state : State) (period : ℕ) (once : HasKeysOnce state.industries)
    (sound : IsSound state) where
  abbrev round : Round
  round = advance_all period (sorted (keys state.industries)) (first_round state)

  round-AdvancedIn :
      (c : String)
      → AdvancedIn period
          (lookup c state.industries)
          (lookup c round.industries)
          (lookup c round.summaries)
  round-AdvancedIn c =
      let cids = sorted (keys state.industries) in
      elim (Option-cases (lookup c state.industries)) [
        | inl absent ↦
            let none_of_them : occurs c cids ≡ 0 = omega (
              arith,
              occurs-sorted c (keys state.industries),
              lookup-occurs_zero c state.industries absent,
            ) in
            rw absent ((others_kept period c cids (first_round state) none_of_them).0 ∙ absent)
        | inr (before, present) ↦
            let single : occurs c cids ≡ 1 = omega (
              arith,
              occurs-sorted c (keys state.industries),
              once c,
              lookup-occurs_pos c before state.industries present,
            ) in
            let (books, after, summary) =
              one_turn period c cids (first_round state) before single present in
            rw (present, after, summary)
              (advance_industry-Advanced period (record { industry = before; books = books })
                (sound c before present))
      ]

-- An epoch that is the next one, of a period in range, runs: it advances every industry, each by its
-- own stocks alone, and leaves the state sound.
pub advance_lem :
    (state : State) (epoch period : ℕ)
    → HasKeysOnce state.industries
    → IsSound state
    → state.ready ≡ true
    → epoch ≡ state.production_epoch + 1
    → epoch ≤ max_amount
    → 60 ≤ period
    → period ≤ 86400
    → (after : State) × (summary : AdvanceSummary) × (advance state epoch period
        ≡ ok (after, some summary))
      × (after.production_epoch ≡ epoch)
      × ((c : String)
          → AdvancedIn period
              (lookup c state.industries)
              (lookup c after.industries)
              (lookup c summary.industries))
      × IsSound after
      × HasKeysOnce after.industries
unfolding advance
advance_lem state epoch period once sound ready next low short long =
    let cids = sorted (keys state.industries) in
    let done = advance_all period cids (first_round state) in
    let each = round-AdvancedIn state period once sound in
    (
      advanced state epoch period done,
      summary_of epoch period done,
      ground arith,
      refl,
      each,
      λ c v e. sound_of-AdvancedIn period _ _ _ v (each c) e,
      λ c. omega (arith, once c, occurs-keys-advance_all period c cids (first_round state)),
    )
