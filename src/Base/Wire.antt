-- ===== src/Base/Wire.antt =====
-- What a decoded message holds where the code asks for an integer, and the strict test of it.
use mathlib.Core.Path.{◌≡◌}
use tpf2mp.Base.{ℕ, ◌≤◌, Bool, ◌&&◌, Option, arith, leb, if◌then◌else◌}
use tpf2mp.Base.Results.{Result, err, ok}
use tpf2mp.Base.Int.{ℤ, pos, negsuc}

-- A float carries the integer that it equals, if it equals one; `other` is a text or a container.
pub data Wire : Type 0 where
  absent other : Wire
  flag : Bool → Wire
  whole : ℤ → Wire
  real : Option ℤ → Wire

-- `isinstance(value, bool) or not isinstance(value, int) or not low <= value <= high`
unfoldable pub wire_integer : {E : Type 0} → E → Wire → ℕ → ℕ → Result E ℕ
wire_integer e (whole (pos n)) low high = if leb low n && leb n high then ok n else err e
wire_integer e value low high = err e

-- An integer that the code writes into a message.
abbrev pub wire : ℕ → Wire
wire n = whole (pos n)

pub wire_integer-wire :
    {E : Type 0} (e : E) (n low high : ℕ)
    → low ≤ n
    → n ≤ high
    → wire_integer e (wire n) low high ≡ ok n
unfolding wire_integer
wire_integer-wire e n low high h k = ground arith

-- An accepted value is a whole number between the bounds.
pub wire_integer-within :
    {E : Type 0} (e : E) (value : Wire) (low high n : ℕ)
    → wire_integer e value low high ≡ ok n
    → (low ≤ n) × (n ≤ high) × (value ≡ wire n)
unfolding wire_integer
wire_integer-within e absent low high n h = absurd (cc)
wire_integer-within e other low high n h = absurd (cc)
wire_integer-within e (flag b) low high n h = absurd (cc)
wire_integer-within e (real b) low high n h = absurd (cc)
wire_integer-within e (whole (negsuc m)) low high n h = absurd (cc)
wire_integer-within e (whole (pos m)) low high n h = ground arith
