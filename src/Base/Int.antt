-- ===== src/Base/Int.antt =====
-- Python's signed integers over the native numbers, under the library's names.
use native.Mathlib.Nat.{div-add-mod, mod-lt}
use tpf2mp.Base.{
  ℕ, suc, ◌+◌, ◌-◌, ◌*◌, ◌/◌, ◌≤◌, ◌<◌, ◌≡◌, ◌⊎◌, Bool, arith, ltb, leb, if◌then◌else◌,
}

-- `negsuc n` is -(n + 1).
pub data ℤ : Type 0 where
  pos : ℕ → ℤ
  negsuc : ℕ → ℤ

abbrev pub pos_part : ℤ → ℕ
pos_part (pos n) = n
pos_part (negsuc n) = 0

abbrev pub neg_part : ℤ → ℕ
neg_part (pos n) = 0
neg_part (negsuc n) = suc n

-- a - b, as an integer.
abbrev pub sub_ℕ : ℕ → ℕ → ℤ
sub_ℕ a b = if leb b a then pos (a - b) else negsuc (b - a - 1)

infixl 65 ◌+ℤ◌ ◌-ℤ◌
infixl 70 ◌*ℤ◌
infix 50 ◌≤ℤ◌ ◌<ℤ◌
unfoldable pub ◌+ℤ◌ : ℤ → ℤ → ℤ
a +ℤ b = sub_ℕ (pos_part a + pos_part b) (neg_part a + neg_part b)

unfoldable pub ◌-ℤ◌ : ℤ → ℤ → ℤ
a -ℤ b = sub_ℕ (pos_part a + neg_part b) (neg_part a + pos_part b)

unfoldable pub ◌*ℤ◌ : ℤ → ℤ → ℤ
a *ℤ b =
    sub_ℕ (pos_part a * pos_part b + neg_part a * neg_part b)
      (pos_part a * neg_part b + neg_part a * pos_part b)

-- `a // d` for a positive divisor: the quotient is rounded towards minus infinity.
unfoldable pub div_floor : ℤ → ℕ → ℤ
div_floor (pos n) d = pos (n / d)
div_floor (negsuc n) d = negsuc (n / d)

abbrev pub ◌≤ℤ◌ : ℤ → ℤ → Type 0
a ≤ℤ b = pos_part a + neg_part b ≤ pos_part b + neg_part a

abbrev pub ◌<ℤ◌ : ℤ → ℤ → Type 0
a <ℤ b = pos_part a + neg_part b < pos_part b + neg_part a

abbrev pub ltb_ℤ : ℤ → ℤ → Bool
ltb_ℤ a b = ltb (pos_part a + neg_part b) (pos_part b + neg_part a)

abbrev pub leb_ℤ : ℤ → ℤ → Bool
leb_ℤ a b = leb (pos_part a + neg_part b) (pos_part b + neg_part a)

abbrev pub max_ℤ : ℤ → ℤ → ℤ
max_ℤ a b = if ltb_ℤ a b then b else a

abbrev pub min_ℤ : ℤ → ℤ → ℤ
min_ℤ a b = if ltb_ℤ b a then b else a

abbrev pub neg : ℤ → ℤ
neg a = pos 0 -ℤ a

-- One lemma for each operation lets `omega` work with the operations shut, at any depth.
pub +ℤ_parts :
    (a b : ℤ)
    → pos_part (a +ℤ b) + neg_part a + neg_part b ≡ neg_part (a +ℤ b) + pos_part a + pos_part b
unfolding ◌+ℤ◌
+ℤ_parts a b = ground arith

pub -ℤ_parts :
    (a b : ℤ)
    → pos_part (a -ℤ b) + neg_part a + pos_part b ≡ neg_part (a -ℤ b) + pos_part a + neg_part b
unfolding ◌-ℤ◌
-ℤ_parts a b = ground arith

pub eq_of_parts : (a b : ℤ) → pos_part a + neg_part b ≡ pos_part b + neg_part a → a ≡ b
eq_of_parts a b h = ground arith

pub *ℤ_parts :
    (a b : ℤ)
    → pos_part (a *ℤ b) + pos_part a * neg_part b + neg_part a * pos_part b
      ≡ neg_part (a *ℤ b) + pos_part a * pos_part b + neg_part a * neg_part b
unfolding ◌*ℤ◌
*ℤ_parts a b = ground arith

pub ruleset int_laws = (arith, +ℤ_parts, -ℤ_parts, eq_of_parts)

pub ruleset ring_laws = (int_laws, *ℤ_parts)

-- The quotient is the largest integer whose multiple is not above the dividend.
pub div_floor_bounds :
    (x : ℤ) (d : ℕ)
    → 0 < d
    → (pos_part (div_floor x d) * d + neg_part x ≤ pos_part x + neg_part (div_floor x d) * d)
      × (pos_part x + neg_part (div_floor x d) * d < pos_part (div_floor x d) * d + neg_part x + d)
unfolding div_floor
div_floor_bounds (pos n) d h =
    (grind (arith, div-add-mod n d), grind (arith, div-add-mod n d, mod-lt n h))
div_floor_bounds (negsuc n) d h =
    (grind (arith, div-add-mod n d, mod-lt n h), grind (arith, div-add-mod n d))

abbrev pub IsBetween : ℤ → ℤ → ℤ → Type 0
IsBetween low high x = (low ≤ℤ x) × (x ≤ℤ high)

pub IsBetween-up : (a b x : ℤ) → a ≤ℤ b → IsBetween a b x → IsBetween (min_ℤ a b) (max_ℤ a b) x
IsBetween-up a b x h p = ground arith

pub IsBetween-down : (a b x : ℤ) → b ≤ℤ a → IsBetween b a x → IsBetween (min_ℤ a b) (max_ℤ a b) x
IsBetween-down a b x h p = ground arith

pub ≤ℤ_total : (a b : ℤ) → (a ≤ℤ b) ⊎ (b ≤ℤ a)
≤ℤ_total a b = omega arith
