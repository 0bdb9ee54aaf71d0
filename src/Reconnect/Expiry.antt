-- ===== src/Reconnect/Expiry.antt =====
-- companion/tpf2mp/reconnect.py, lines 156 to 175: what is left after the graces that are over.
use tpf2mp.Reconnect.{Waiting, Coordinator, World, fault_session}
use tpf2mp.Reconnect.Operations.{expire, expired, timed_out, time_out_all, fault_for}
use tpf2mp.Reconnect.Counting.{IsCounted, timed_out-IsCounted}
use tpf2mp.Base.{
  ℕ, ◌<◌, ◌≤◌, ◌≡◌, refl, ◌∙◌, String, Bool, true, false, Option, none, some, List, [], ◌∷◌, arith,
  eq_iff, Bool-cases, inl, inr, str_eq, leb, if◌then◌else◌,
}
use tpf2mp.Base.Dict.{Dict, lookup}
use tpf2mp.Base.Keys.{HasKeysOnce, occurs, lookup-remove, zero-lookup, occurs-sorted}
use tpf2mp.Base.Sort.{sorted}

-- Whose grace is over at a time.
abbrev over : ℕ → Option Waiting → Bool
over now none = false
over now (some item) = leb item.grace_deadline now

occurs-expired :
    (now : ℕ) (d : Dict Waiting) (c : String)
    → HasKeysOnce d
    → occurs c (expired now d) ≡ (if over now (lookup c d) then 1 else 0)
occurs-expired now [] c h = refl
occurs-expired now ((peer, item) ∷ d) c h =
    let later = occurs-expired now d c (λ e. ground (arith, h e)) in
    elim (Bool-cases (str_eq peer c)) [
      | inl same ↦
          let absent : lookup c d ≡ none = zero-lookup c d (ground (arith, h c, same)) in
          let none_later : occurs c (expired now d) ≡ 0 = later ∙ rw absent refl in
          ground (arith, same, none_later)
      | inr other ↦ ground (arith, other, later)
    ]

timed_out-lookup :
    (c : Coordinator) (q : String) (now : ℕ) (o : Option Waiting) (p : String)
    → HasKeysOnce c.waiting
    → lookup q c.waiting ≡ o
    → lookup p (timed_out c q now o).waiting ≡ (if str_eq q p then none else lookup p c.waiting)
timed_out-lookup c q now none p once missing = ground (arith, missing, eq_iff q p)
timed_out-lookup c q now (some item) p once found = lookup-remove p q c.waiting once

-- What a peer's entry is after the loop.
time_out_all-lookup :
    (c : Coordinator) (peers : List String) (now : ℕ) (p : String)
    → IsCounted c
    → lookup p (time_out_all c peers now).waiting
      ≡ (if leb 1 (occurs p peers) then none else lookup p c.waiting)
unfolding time_out_all
time_out_all-lookup c [] now p h = refl
time_out_all-lookup c (q ∷ peers) now p h =
    let next = timed_out c q now (lookup q c.waiting) in
    ground (
      arith,
      time_out_all-lookup next peers now p
          (timed_out-IsCounted c q now (lookup q c.waiting) refl h),
      timed_out-lookup c q now (lookup q c.waiting) p h.once refl,
    )

faulted :
    (p : String) (peers : List String)
    → occurs p peers ≡ 1
    → fault_for peers ≡ fault_session "clock" peers ∷ []
faulted p [] h = absurd (omega (arith, h))
faulted p (q ∷ peers) h = refl

stays_none : (b : Bool) (o : Option Waiting) → o ≡ none → (if b then none else o) ≡ none
stays_none true o h = refl
stays_none false o h = h

-- In a world where no peer waits twice and the outages are counted, a poll leaves the peers
-- waiting whose grace goes on, as they were; for all others the outage is over, and there is a
-- fault of the session that names them.
pub expire_lem :
    (w : World) (now : ℕ)
    → IsCounted w.coordinator
    → let result = expire w now in
      ((p : String) (item : Waiting)
        → lookup p w.coordinator.waiting ≡ some item
        → (now < item.grace_deadline → lookup p result.0.0.coordinator.waiting ≡ some item)
          × (item.grace_deadline ≤ now
              → (lookup p result.0.0.coordinator.waiting ≡ none)
                × ((peers : List String) × (result.1 ≡ fault_session "clock" peers ∷ [])
                    × (0 < occurs p peers))))
      × ((p : String)
          → lookup p w.coordinator.waiting ≡ none
          → lookup p result.0.0.coordinator.waiting ≡ none)
unfolding expire
expire_lem w now h =
    let waiting = w.coordinator.waiting in
    let peers = sorted (expired now waiting) in
    let after = time_out_all-lookup w.coordinator peers now in
    let counted =
      λ (p : String). occurs-sorted p (expired now waiting) ∙ occurs-expired now waiting p h.once in
    (
      λ p item found. (
        λ early.
            let alone : occurs p peers ≡ 0 = counted p ∙ rw found (ground (arith, early)) in
            after p h ∙ rw (alone, found) refl,
        λ late.
            let once : occurs p peers ≡ 1 = counted p ∙ rw found (ground (arith, late)) in
            (after p h ∙ rw once refl, (peers, faulted p peers once, omega (arith, once))),
      ),
      λ p missing. after p h ∙ stays_none (leb 1 (occurs p peers)) _ missing,
    )
