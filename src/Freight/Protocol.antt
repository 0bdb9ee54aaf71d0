-- ===== src/Freight/Protocol.antt =====
-- companion/tpf2mp/freight_protocol.py, lines 40 to 158, and freight.py, lines 62 to 101: the checks
-- that a bootstrap action passes, and the state it makes. A field that is no integer, or a negative
-- one, is refused by the guard of its range, so it has no counterpart here. `texts_ok` stands for the
-- patterns, text lengths, opaque parameters and the digest of a record, and the other fields of `Checks`
-- for the digests and the size of the whole action, which are calls of `re`, `len` and `checksum`.
pub mod Sound
pub mod Start
use tpf2mp.Base.{
  ℕ, zero, suc, String, Bool, true, false, not, ◌&&◌, ◌||◌, Option, none, some, List, [], ◌∷◌, all,
  any, length, get_elem?, leb, ltb, ◌==◌, str_eq, if◌then◌else◌, Result, ok, err, ◌>>◌, raise_if,
}
use tpf2mp.Base.Dict.{Dict, insert, contains}
use tpf2mp.Base.Sort.{leb_str, sort_rows}
use tpf2mp.Freight.Records.{
  max_amount, StockSpec, Requirement, Output, Recipe, Industry, State, new_state, state_industry,
  FreightError, malformed_digest, malformed_recipe, digest_mismatch, too_large, wrong_content,
  already_bootstrapped,
}

abbrev pub max_recipe_items : ℕ
max_recipe_items = 32

-- `stock.get("index") != index` and the range of `moreCapacity`, from `index` on.
unfoldable pub stocks_ok : ℕ → List StockSpec → Bool
stocks_ok index [] = true
stocks_ok index (stock ∷ stocks) =
    stock.index == index && leb stock.more_capacity max_amount && stocks_ok (suc index) stocks

-- `cargo_by_stock.get(stock_index) == cargo_type`
abbrev pub accepts : List StockSpec → ℕ → String → Bool
accepts stocks index cargo = elim (get_elem? stocks index) [
  | none ↦ false
  | some stock ↦ str_eq stock.cargo_type cargo
]

-- The requirements from the first allowed index on: their indices ascend strictly.
unfoldable pub requirements_ok : List StockSpec → ℕ → List Requirement → Bool
requirements_ok stocks first [] = true
requirements_ok stocks first (r ∷ requirements) =
    leb first r.stock_index
    && accepts stocks r.stock_index r.cargo_type
    && leb 1 r.amount
    && leb r.amount max_amount
    && requirements_ok stocks (suc r.stock_index) requirements

abbrev pub alternative_ok : List StockSpec → List Requirement → Bool
alternative_ok stocks alternative =
    leb (length alternative) max_recipe_items && requirements_ok stocks 0 alternative

-- `previous` is the cargo before, at first the empty text.
unfoldable pub outputs_ok : String → List Output → Bool
outputs_ok previous [] = true
outputs_ok previous (output ∷ outputs) =
    not (leb_str output.cargo_type previous)
    && leb 1 output.amount
    && leb output.amount max_amount
    && outputs_ok output.cargo_type outputs

abbrev is_cons {ℓ} : {A : Type ℓ} → List A → Bool
is_cons [] = false
is_cons (x ∷ xs) = true

-- An action that `validate_action` has decoded; `kind` is its `type`.
pub record Bootstrap : Type 0 where
  pub kind : String
  pub content_digest : String
  pub economy_epoch : ℕ
  pub industries : List Recipe
  pub digest : String

-- `_industry`, after the texts.
unfoldable pub recipe_ok : Recipe → Bool
unfolding stocks_ok requirements_ok outputs_ok
recipe_ok recipe =
    leb recipe.capacity max_amount
    && leb (length recipe.stocks) max_recipe_items
    && leb 1 (length recipe.inputs)
    && leb (length recipe.inputs) max_recipe_items
    && leb (length recipe.outputs) max_recipe_items
    && stocks_ok 0 recipe.stocks
    && all (alternative_ok recipe.stocks) recipe.inputs
    && outputs_ok "" recipe.outputs
    && (is_cons recipe.outputs || any is_cons recipe.inputs)

-- `_industry` of each row: every cid comes after the one before, and is none of those `seen`.
module _ (texts_ok : Recipe → Bool) where
  unfoldable pub industries_ok : Option String → List String → List Recipe → Bool
  industries_ok previous seen [] = true
  industries_ok previous seen (recipe ∷ industries) =
      not (any (λ cid. str_eq cid recipe.cid) seen)
      && elim previous [ none ↦ true | some p ↦ not (leb_str recipe.cid p) ]
      && texts_ok recipe
      && recipe_ok recipe
      && industries_ok (some recipe.cid) (recipe.cid ∷ seen) industries

-- What the validation calls of `re`, `checksum` and `canonical_json`: the texts of a record, the pattern
-- of a digest, the checksum of `bootstrap_view`, of which the schema version is a constant, and whether
-- the action's text is at most `MAX_BOOTSTRAP_BYTES` long.
pub record Checks : Type 0 where
  pub texts_ok : Recipe → Bool
  pub is_digest_text : String → Bool
  pub view_checksum : String → ℕ → List Recipe → String
  pub within_size : Bootstrap → Bool

abbrev pub view_digest : Checks → Bootstrap → String
view_digest checks action =
    checks.view_checksum action.content_digest action.economy_epoch action.industries

-- `validate_industry_bootstrap`
unfoldable pub validate_industry_bootstrap : Checks → Bootstrap → Result FreightError (Unit {0})
unfolding industries_ok
validate_industry_bootstrap checks action =
    raise_if
      (not (checks.is_digest_text action.content_digest)
        || not (checks.is_digest_text action.digest))
      malformed_digest
    >> raise_if
        (not (
          leb action.economy_epoch max_amount
          && leb (length action.industries) 2048
          && industries_ok checks.texts_ok none [] action.industries))
        malformed_recipe
    >> raise_if (not (str_eq (view_digest checks action) action.digest)) digest_mismatch
    >> raise_if (not (checks.within_size action)) too_large

-- `industries[str(recipe["cid"])] = _state_industry(recipe)`
unfoldable pub add_recipes : List Recipe → Dict Industry → Dict Industry
add_recipes [] industries = industries
add_recipes (recipe ∷ recipes) industries =
    add_recipes recipes (insert recipe.cid (state_industry recipe) industries)

abbrev pub bootstrapped : Bootstrap → State
bootstrapped action = record new_state {
  ready = true;
  content_digest = some action.content_digest;
  bootstrap_digest = some action.digest;
  bootstrap_epoch = action.economy_epoch;
  production_epoch = action.economy_epoch;
  industries = add_recipes action.industries [];
}

-- The agreed industry content: whether it is ready, and its digest.
pub record IndustryContent : Type 0 where
  pub ready : Bool
  pub digest : String

abbrev is_digest : String → Option String → Bool
is_digest digest none = false
is_digest digest (some d) = str_eq d digest

-- `apply_bootstrap`, with the new state. The state is changed after the last check.
unfoldable pub apply_bootstrap :
    Checks → State → Bootstrap → IndustryContent → Result FreightError State
unfolding validate_industry_bootstrap add_recipes
apply_bootstrap checks state action content =
    validate_industry_bootstrap checks action
    >> (if not (str_eq action.kind "freight.industry_bootstrap")
          || not content.ready
          || not (str_eq content.digest action.content_digest)
        then err wrong_content
        else if state.ready
        then (if is_digest action.digest state.bootstrap_digest
            then ok state
            else err already_bootstrapped)
        else ok (bootstrapped action))

-- `digest_view`: the industries in the order of their keys. Every number is at least 0 already.
unfoldable pub digest_view : State → State
digest_view state = record state {
  industries = sort_rows (λ a b. leb_str a.0 b.0) state.industries;
}
