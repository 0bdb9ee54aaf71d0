-- ===== src/Freight/Protocol/Start.antt =====
-- `apply_bootstrap` of freight.py on a fresh state, and once more.
use text.Mathlib.TextPositions.{eq_refl}
use tpf2mp.Base.{
  ◌≤◌, ◌≡◌, refl, ◌∙◌, ap, String, Bool, true, false, Option, none, some, List, [], ◌∷◌, ◌++◌, map,
  any, length, arith, ok, str_eq, eq_iff,
}
use tpf2mp.Base.Dict.{Dict, lookup, insert, lookup-insert, AllValues-nil}
use tpf2mp.Base.Keys.{HasKeysOnce, insert-HasKeysOnce}
use tpf2mp.Freight.Records.{max_amount, Recipe, Industry, State, state_industry}
use tpf2mp.Freight.Protocol.{
  industries_ok, add_recipes, Bootstrap, IndustryContent, Checks, view_digest,
  validate_industry_bootstrap, apply_bootstrap, bootstrapped,
}
use tpf2mp.Freight.Protocol.Sound.{IsIndustry, IsSound, add_recipes-IsIndustry}

append_nil {ℓ} : {A : Type ℓ} (xs : List A) → xs ≡ xs ++ []
append_nil [] = refl
append_nil (x ∷ xs) = ap (λ rest. x ∷ rest) (append_nil xs)

add_recipes-HasKeysOnce :
    (recipes : List Recipe) (d : Dict Industry)
    → HasKeysOnce d
    → HasKeysOnce (add_recipes recipes d)
unfolding add_recipes
add_recipes-HasKeysOnce [] d h = h
add_recipes-HasKeysOnce (r ∷ recipes) d h =
    add_recipes-HasKeysOnce recipes (insert r.cid (state_industry r) d)
      (insert-HasKeysOnce r.cid (state_industry r) d h)

insert_new {ℓ} :
    {V : Type ℓ} (k : String) (v : V) (d : Dict V)
    → lookup k d ≡ none
    → insert k v d ≡ d ++ (k, v) ∷ []
insert_new k v [] h = refl
insert_new k v ((j, w) ∷ d) h = ground (arith, insert_new k v d)

append-cons {ℓ} :
    {A : Type ℓ} (xs : List A) (x : A) (ys : List A) → (xs ++ x ∷ []) ++ ys ≡ xs ++ x ∷ ys
append-cons [] x ys = refl
append-cons (z ∷ xs) x ys = ap (λ rest. z ∷ rest) (append-cons xs x ys)

-- The entry of a recipe in a state that it starts.
abbrev pub started_entry : Recipe → String × Industry
started_entry recipe = (recipe.cid, state_industry recipe)

-- Recipes with new names each get an entry, in their order.
add_recipes-started_entry :
    (texts_ok : Recipe → Bool) (previous : Option String) (seen : List String)
    (recipes : List Recipe) (d : Dict Industry)
    → industries_ok texts_ok previous seen recipes ≡ true
    → ((c : String) → any (λ cid. str_eq cid c) seen ≡ false → lookup c d ≡ none)
    → add_recipes recipes d ≡ d ++ map started_entry recipes
unfolding industries_ok add_recipes
add_recipes-started_entry texts_ok previous seen [] d h fresh = append_nil d
add_recipes-started_entry texts_ok previous seen (r ∷ recipes) d h fresh =
    let industry = state_industry r in
    add_recipes-started_entry texts_ok (some r.cid) (r.cid ∷ seen) recipes (insert r.cid industry d)
      (ground arith) (λ c unseen. ground (arith, lookup-insert r.cid c industry d, fresh c, unseen))
    ∙ ap (λ next. next ++ map started_entry recipes)
        (insert_new r.cid industry d (fresh r.cid (ground arith)))
    ∙ append-cons d (started_entry r) (map started_entry recipes)

-- What an action has passed that is valid.
pub record Passed (checks : Checks) (action : Bootstrap) : Type 0 where
  pub content_digest : checks.is_digest_text action.content_digest ≡ true
  pub digest : checks.is_digest_text action.digest ≡ true
  pub checksum :
      checks.view_checksum action.content_digest action.economy_epoch action.industries
      ≡ action.digest
  pub size : checks.within_size action ≡ true
  pub epoch : action.economy_epoch ≤ max_amount
  pub count : length action.industries ≤ 2048
  pub industries : industries_ok checks.texts_ok none [] action.industries ≡ true

validate_industry_bootstrap-Passed :
    (checks : Checks) (action : Bootstrap)
    → validate_industry_bootstrap checks action ≡ ok tt
    → Passed checks action
unfolding validate_industry_bootstrap
validate_industry_bootstrap-Passed checks action h = record {
  content_digest = ground arith;
  digest = ground arith;
  checksum = ground (arith, eq_iff (view_digest checks action) action.digest);
  size = ground arith;
  epoch = ground arith;
  count = ground arith;
  industries = ground arith;
}

-- A valid bootstrap for the agreed content has the digests and the size that are asked of it. On a
-- state that is not ready it sets up a sound state at the action's epoch which has exactly the
-- industries of the action, each as its recipe starts it and once, and the same bootstrap once more
-- leaves that state as it is.
pub apply_bootstrap_lem :
    (checks : Checks) (state : State) (action : Bootstrap) (content : IndustryContent)
    → validate_industry_bootstrap checks action ≡ ok tt
    → action.kind ≡ "freight.industry_bootstrap"
    → content.ready ≡ true
    → content.digest ≡ action.content_digest
    → state.ready ≡ false
    → Passed checks action
      × ((after : State) × (apply_bootstrap checks state action content ≡ ok after)
          × IsSound after
          × (after.industries ≡ map started_entry action.industries)
          × HasKeysOnce after.industries
          × (after.production_epoch ≡ action.economy_epoch)
          × (apply_bootstrap checks after action content ≡ ok after))
unfolding apply_bootstrap
apply_bootstrap_lem checks state action content valid kind ready digest fresh =
    let passed = validate_industry_bootstrap-Passed checks action valid in
    (
      passed,
      (
        bootstrapped action,
        rw (valid, kind, ready, digest, fresh, eq_refl action.content_digest) refl,
        add_recipes-IsIndustry checks.texts_ok none [] action.industries [] passed.industries
            (AllValues-nil IsIndustry),
        add_recipes-started_entry checks.texts_ok none [] action.industries [] passed.industries
            (λ c h. refl),
        add_recipes-HasKeysOnce action.industries [] (λ c. omega arith),
        refl,
        rw (valid, kind, ready, digest, eq_refl action.content_digest, eq_refl action.digest) refl,
      ),
    )
