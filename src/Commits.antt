-- ===== src/Commits.antt =====
-- companion/tpf2mp/commit_index.py: the index over the commits that have arrived, which scans the
-- queue's directory once and then follows what the bridge writes. A set is a list in which only
-- membership counts. `files` are the sequence numbers of the directory's messages that the scan
-- accepts; which they are is read by `decode_line`.
pub mod Contiguous
mod Tests
use tpf2mp.Base.{
  ℕ, zero, suc, ◌+◌, max, Bool, true, false, Option, none, some, List, [], ◌∷◌, any, ◌==◌,
  if◌then◌else◌,
}

abbrev pub elem : ℕ → List ℕ → Bool
elem n set = any (λ m. m == n) set

pub record Index : Type 0 where
  pub sequences : Option (List ℕ)
  pub contiguous : ℕ

abbrev pub new_index : Index
new_index = record { sequences = none; contiguous = 0 }

abbrev pub highest : List ℕ → ℕ
highest [] = 0
highest (n ∷ set) = max n (highest set)

-- The `while` loop of `_advance`, on fuel.
unfoldable pub climb : ℕ → List ℕ → ℕ → ℕ
climb zero set n = n
climb (suc fuel) set n = let next = climb fuel set (n + 1) in if elem (n + 1) set then next else n

-- Every round reaches a member, and no member is above the highest.
unfoldable pub advance : List ℕ → ℕ → Index
unfolding climb
advance set contiguous = record {
  sequences = some set;
  contiguous = climb (highest set) set contiguous;
}

-- `_ensure`, where `files` is what `_scan` finds.
abbrev pub ensured : List ℕ → Index → Option (List ℕ) → Index
ensured files index none = advance files index.contiguous
ensured files index (some set) = index

unfoldable pub ensure : List ℕ → Index → Index
unfolding advance
ensure files index = ensured files index index.sequences

abbrev pub remembered : ℕ → Index → Option (List ℕ) → Index
remembered sequence index none = index
remembered sequence index (some set) = advance (sequence ∷ set) index.contiguous

unfoldable pub remember : ℕ → Index → Index
unfolding advance
remember sequence index = remembered sequence index index.sequences

abbrev found : Option (List ℕ) → List ℕ
found none = []
found (some set) = set

abbrev pub sequences : List ℕ → Index → List ℕ × Index
sequences files index = let after = ensure files index in (found after.sequences, after)

abbrev pub last_contiguous : List ℕ → Index → ℕ × Index
last_contiguous files index = let after = ensure files index in (after.contiguous, after)

-- What happens to the queue: the bridge writes a commit and tells the index, or someone asks it.
pub data Event : Type 0 where
  arrived : ℕ → Event
  asked : Event

abbrev pub happen : Event → List ℕ × Index → List ℕ × Index
happen (arrived sequence) (files, index) = (sequence ∷ files, remember sequence index)
happen asked (files, index) = (files, ensure files index)

unfoldable pub run : List Event → List ℕ × Index → List ℕ × Index
unfolding remember ensure
run [] world = world
run (event ∷ events) world = run events (happen event world)
