-- ===== src/Economy/Amounts/Glide.antt =====
-- `_glide_step` of checkpoint.py, a service's ridership on its way to the equilibrium.
use native.Mathlib.Nat.{mul-le-mul_left}
use tpf2mp.Base.{ℕ, suc, ◌≤◌, ◌<◌, ◌≡◌, inl, inr, arith}
use tpf2mp.Base.Int.{
  ℤ, pos, negsuc, ◌+ℤ◌, ◌-ℤ◌, ◌*ℤ◌, ◌≤ℤ◌, ◌<ℤ◌, div_floor, int_laws, ring_laws, div_floor_bounds,
  min_ℤ, max_ℤ, IsBetween, IsBetween-up, IsBetween-down, ≤ℤ_total,
}
use tpf2mp.Economy.Amounts.{glide_step}

-- Nothing is lost: a thousand times the move, and what is carried, make up the pull.
pub glide_step_exact :
    (actual equilibrium alpha_pm resid : ℤ)
    → let (moved, carried) = glide_step actual equilibrium alpha_pm resid in
      ((moved -ℤ actual) *ℤ pos 1000 +ℤ carried ≡ (equilibrium -ℤ actual) *ℤ alpha_pm +ℤ resid)
      × (pos 0 ≤ℤ carried)
      × (carried <ℤ pos 1000)
unfolding glide_step
glide_step_exact actual equilibrium alpha_pm resid =
    let delta = (equilibrium -ℤ actual) *ℤ alpha_pm +ℤ resid in
    (
      omega ring_laws,
      omega (ring_laws, div_floor_bounds delta 1000 (omega arith)),
      omega (ring_laws, div_floor_bounds delta 1000 (omega arith)),
    )

module _ (alpha resid : ℕ) (h : alpha ≤ 1000) (k : resid < 1000) where
  abbrev step : ℤ → ℤ
  step gap = div_floor (gap *ℤ pos alpha +ℤ pos resid) 1000

  -- With at most the whole gap per settlement, a step goes towards the equilibrium and not past it.
  step_up : (gap : ℤ) → pos 0 ≤ℤ gap → IsBetween (pos 0) gap (step gap)
  step_up (pos d) up = omega (
    ring_laws,
    div_floor_bounds (pos d *ℤ pos alpha +ℤ pos resid) 1000 (omega arith),
    mul-le-mul_left d h,
  )
  step_up (negsuc d) up = absurd (omega arith)

  step_down : (gap : ℤ) → gap ≤ℤ pos 0 → IsBetween gap (pos 0) (step gap)
  step_down (pos d) down =
      let zero_gap : d ≡ 0 = omega arith in
      omega (
        ring_laws,
        div_floor_bounds (pos d *ℤ pos alpha +ℤ pos resid) 1000 (omega arith),
        mul-le-mul_left d h,
      )
  step_down (negsuc d) down = omega (
    ring_laws,
    div_floor_bounds (negsuc d *ℤ pos alpha +ℤ pos resid) 1000 (omega arith),
    mul-le-mul_left (suc d) h,
  )

-- The new ridership lies between the old one and the equilibrium, on either side.
pub glide_step_no_overshoot :
    (actual equilibrium : ℤ) (alpha resid : ℕ)
    → alpha ≤ 1000
    → resid < 1000
    → IsBetween
        (min_ℤ actual equilibrium)
        (max_ℤ actual equilibrium)
        (glide_step actual equilibrium (pos alpha) (pos resid)).0
unfolding glide_step
glide_step_no_overshoot actual equilibrium alpha resid h k =
    let gap = equilibrium -ℤ actual in
    elim (≤ℤ_total actual equilibrium) [
      | inl up ↦
          IsBetween-up actual equilibrium _ up
            (omega (ring_laws, step_up alpha resid h k gap (omega int_laws)))
      | inr down ↦
          IsBetween-down actual equilibrium _ down
            (omega (ring_laws, step_down alpha resid h k gap (omega int_laws)))
    ]
