-- ===== src/Base/Text.antt =====
-- Texts that the code puts together: `str` of a number and the joining of parts.
use Prim.Native.String.{◌++◌ as join_text}
use tpf2mp.Base.{ℕ, zero, suc, ◌/◌, ◌%◌, String, [], ◌∷◌, ltb, if◌then◌else◌, or_else}
use tpf2mp.Base.Lists.{get_elem?}

infixr 65 ◌<>◌
abbrev pub ◌<>◌ : String → String → String
s <> t = join_text s t

abbrev digit : ℕ → String
digit n = or_else (get_elem? ("0" ∷ "1" ∷ "2" ∷ "3" ∷ "4" ∷ "5" ∷ "6" ∷ "7" ∷ "8" ∷ "9" ∷ []) n) ""

-- A number has no more digits than its value and one more.
abbrev decimal_within : ℕ → ℕ → String
decimal_within zero n = digit n
decimal_within (suc fuel) n =
    let rest = decimal_within fuel (n / 10) in if ltb n 10 then digit n else rest <> digit (n % 10)

-- `str(n)`
unfoldable pub decimal : ℕ → String
decimal n = decimal_within n n
