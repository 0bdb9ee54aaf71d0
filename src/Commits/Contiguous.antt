-- ===== src/Commits/Contiguous.antt =====
-- `_advance` and its callers in commit_index.py, along arrivals and questions.
use mathlib.Core.Path.{subst, sym}
use tpf2mp.Base.{
  ℕ, zero, suc, ◌+◌, ◌≤◌, ◌≡◌, refl, ap, true, false, none, some, List, [], ◌∷◌, arith, Bool-cases,
  inl, inr, ◌⊎◌,
}
use tpf2mp.Commits.{
  elem, Index, new_index, highest, climb, advance, ensured, ensure, remembered, remember,
  last_contiguous, Event, arrived, asked, run,
}

-- All numbers from 1 to n are there.
abbrev pub AllUpTo : ℕ → List ℕ → Type 0
AllUpTo zero set = Unit
AllUpTo (suc n) set = (elem (suc n) set ≡ true) × AllUpTo n set

-- They end the unbroken sequence of the set.
abbrev pub IsEnd : List ℕ → ℕ → Type 0
IsEnd set n = (elem (n + 1) set ≡ false) × AllUpTo n set

elem-le-highest : (n : ℕ) (set : List ℕ) → elem n set ≡ true → n ≤ highest set
elem-le-highest n [] h = cc
elem-le-highest n (m ∷ set) h = ground (arith, elem-le-highest n set)

climb-IsEnd :
    (fuel : ℕ) (set : List ℕ) (n : ℕ)
    → highest set ≤ fuel + n
    → AllUpTo n set
    → IsEnd set (climb fuel set n)
unfolding climb
climb-IsEnd zero set n h below = elim (Bool-cases (elem (n + 1) set)) [
  | inl there ↦ absurd (omega (arith, elem-le-highest (n + 1) set there))
  | inr gone ↦ (gone, below)
]
climb-IsEnd (suc fuel) set n h below = elim (Bool-cases (elem (n + 1) set)) [
  | inl there ↦ rw there (climb-IsEnd fuel set (n + 1) (omega arith) (ground arith))
  | inr gone ↦ rw gone (gone, below)
]

AllUpTo-cons : (m n : ℕ) (set : List ℕ) → AllUpTo n set → AllUpTo n (m ∷ set)
AllUpTo-cons m zero set h = tt
AllUpTo-cons m (suc n) set h = ground (arith, AllUpTo-cons m n set)

AllUpTo-same : (n : ℕ) (a b : List ℕ) → ((k : ℕ) → elem k a ≡ elem k b) → AllUpTo n a → AllUpTo n b
AllUpTo-same zero a b e h = tt
AllUpTo-same (suc n) a b e h = ground (arith, e (suc n), AllUpTo-same n a b e)

-- The index follows the directory.
abbrev Follows : List ℕ → Index → Type 0
Follows files index =
    (set : List ℕ) × (index.sequences ≡ some set)
    × ((k : ℕ) → elem k set ≡ elem k files)
    × IsEnd set index.contiguous

-- It does, or it has not been used.
abbrev Agrees : List ℕ × Index → Type 0
Agrees (files, index) = ((index.sequences ≡ none) × (index.contiguous ≡ 0)) ⊎ Follows files index

advance-Follows :
    (files set : List ℕ) (n : ℕ)
    → ((k : ℕ) → elem k set ≡ elem k files)
    → AllUpTo n set
    → Follows files (advance set n)
unfolding advance
advance-Follows files set n e h = (set, refl, e, climb-IsEnd (highest set) set n (omega arith) h)

ensure-Follows :
    (files : List ℕ) (index : Index) → Agrees (files, index) → Follows files (ensure files index)
unfolding ensure
ensure-Follows files index (inl (unused, start)) =
    subst (Follows files) (sym (ap (ensured files index) unused)) (
      advance-Follows files files index.contiguous (λ k. refl)
        (subst (λ n. AllUpTo n files) (sym start) tt))
ensure-Follows files index (inr h) = subst (Follows files) (sym (ap (ensured files index) h.1)) h

remember-Agrees :
    (m : ℕ) (files : List ℕ) (index : Index)
    → Agrees (files, index)
    → Agrees (m ∷ files, remember m index)
unfolding remember
remember-Agrees m files index (inl h) =
    subst (λ i. Agrees (m ∷ files, i)) (sym (ap (remembered m index) h.0)) (inl h)
remember-Agrees m files index (inr (set, used, same, ends)) =
    subst (λ i. Agrees (m ∷ files, i)) (sym (ap (remembered m index) used))
      (inr (
        advance-Follows (m ∷ files) (m ∷ set) index.contiguous (λ k. ground (arith, same k))
          (AllUpTo-cons m index.contiguous set ends.1)))

run-Agrees :
    (events : List Event) (world : List ℕ × Index) → Agrees world → Agrees (run events world)
unfolding run
run-Agrees [] world h = h
run-Agrees (arrived m ∷ events) (files, index) h =
    run-Agrees events (m ∷ files, remember m index) (remember-Agrees m files index h)
run-Agrees (asked ∷ events) (files, index) h =
    run-Agrees events (files, ensure files index) (inr (ensure-Follows files index h))

Follows-IsEnd :
    (files : List ℕ) (index : Index) → Follows files index → IsEnd files index.contiguous
Follows-IsEnd files index (set, used, same, ends) = (
  ground (arith, same (index.contiguous + 1), ends.0),
  AllUpTo-same index.contiguous set files same ends.1,
)

-- After any sequence of arrivals and questions, from an index that has not been used, the index
-- answers with the end of the unbroken sequence of what the directory holds then.
pub last_contiguous_lem :
    (files : List ℕ) (events : List Event)
    → IsEnd
        (run events (files, new_index)).0
        (last_contiguous (run events (files, new_index)).0 (run events (files, new_index)).1).0
last_contiguous_lem files events =
    let files_after = (run events (files, new_index)).0 in
    let index = (run events (files, new_index)).1 in
    Follows-IsEnd files_after (ensure files_after index)
      (ensure-Follows files_after index (run-Agrees events (files, new_index) (inl (refl, refl))))
