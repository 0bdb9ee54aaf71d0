-- ===== src/Economy/Logit/Order.antt =====
-- The order and the range of the weights of `_logit_weight_with_cutoff` in checkpoint.py.
use native.Mathlib.Nat.{div-add-mod}
use tpf2mp.Base.{
  ℕ, zero, suc, ◌≤◌, ◌<◌, ◌≡◌, refl, Bool, true, ◌&&◌, arith, inl, inr, leb, Bool-cases,
}
use tpf2mp.Base.Int.{ℤ, pos, negsuc, ◌-ℤ◌, ◌*ℤ◌, ◌≤ℤ◌, div_floor, leb_ℤ, ring_laws, ◌+ℤ◌, IsBetween}
use tpf2mp.Economy.Logit.{interpolate, weight_at, logit_weight_with_cutoff}

-- Over the 800 points of the table the interpolation is checked by evaluation.
descends : ℕ → Bool
descends zero = true
descends (suc n) = leb_ℤ (interpolate (suc n)) (interpolate n) && descends n

descends_table : descends 799 ≡ true
unfolding descends interpolate ◌+ℤ◌ ◌-ℤ◌ ◌*ℤ◌ div_floor
descends_table = refl

descends_at : (n c : ℕ) → descends n ≡ true → c < n → interpolate (suc c) ≤ℤ interpolate c
unfolding descends
descends_at zero c h lt = absurd (omega arith)
descends_at (suc n) c h lt = ground (arith, descends_at n c)

interpolate_antitone : (a b : ℕ) → a ≤ b → b ≤ 799 → interpolate b ≤ℤ interpolate a
interpolate_antitone a zero h k = let e : a ≡ 0 = omega arith in rw e (omega arith)
interpolate_antitone a (suc b) h k = elim (Bool-cases (leb a b)) [
  | inl below ↦ omega (
    arith,
    descends_at 799 b descends_table k,
    interpolate_antitone a b (ground arith) (omega arith),
  )
  | inr top ↦ let e : a ≡ suc b = ground arith in rw e (omega arith)
]

interpolate_top : interpolate 0 ≡ pos 65536
unfolding interpolate ◌+ℤ◌ ◌-ℤ◌ ◌*ℤ◌ div_floor
interpolate_top = refl

-- A quotient by a positive number keeps the order.
div_floor_mono : (x y : ℤ) (d : ℕ) → 0 < d → x ≤ℤ y → div_floor x d ≤ℤ div_floor y d
unfolding div_floor
div_floor_mono (pos m) (pos n) d h le = grind (arith, div-add-mod m d, div-add-mod n d)
div_floor_mono (pos m) (negsuc n) d h le = absurd (omega arith)
div_floor_mono (negsuc m) (pos n) d h le = omega arith
div_floor_mono (negsuc m) (negsuc n) d h le = grind (arith, div-add-mod m d, div-add-mod n d)

weight_at_antitone :
    (near far cutoff : ℤ) → near ≤ℤ far → weight_at far cutoff ≤ℤ weight_at near cutoff
unfolding weight_at
weight_at_antitone (pos m) (pos n) cutoff le = ground (arith, interpolate_antitone m n)
weight_at_antitone (pos m) (negsuc n) cutoff le = absurd (omega arith)
weight_at_antitone (negsuc m) (pos n) cutoff le = ground (arith, interpolate_antitone 0 n)
weight_at_antitone (negsuc m) (negsuc n) cutoff le = ground arith

weight_at_range :
    (c cutoff : ℤ) → cutoff ≤ℤ pos 65536 → IsBetween cutoff (pos 65536) (weight_at c cutoff)
unfolding weight_at
weight_at_range (pos m) cutoff le = ground (arith, interpolate_antitone 0 m, interpolate_top)
weight_at_range (negsuc m) cutoff le = ground (arith, interpolate_top)

module _ (gc_min : ℤ) (theta : ℕ) (cutoff : ℤ) where
  -- From one service to a dearer one the weight does not grow.
  pub logit_weight_antitone :
      (cheap dear : ℤ)
      → 0 < theta
      → cheap ≤ℤ dear
      → logit_weight_with_cutoff dear gc_min theta cutoff
        ≤ℤ logit_weight_with_cutoff cheap gc_min theta cutoff
  unfolding logit_weight_with_cutoff
  logit_weight_antitone cheap dear h le =
      weight_at_antitone _ _ cutoff (div_floor_mono _ _ theta h (omega ring_laws))

  -- Every weight lies between the cutoff and the table's first entry.
  pub logit_weight_range :
      (gc : ℤ)
      → cutoff ≤ℤ pos 65536
      → IsBetween cutoff (pos 65536) (logit_weight_with_cutoff gc gc_min theta cutoff)
  unfolding logit_weight_with_cutoff
  logit_weight_range gc le = weight_at_range _ cutoff le
