-- ===== src/Economy/Market/Find.antt =====
-- The candidate with a given `cid`, before and after a round of the loop of `_evaluate_market`.
use mathlib.Core.Path.{subst}
use tpf2mp.Base.{
  ℕ, ◌+◌, ◌≡◌, refl, sym, ◌∙◌, String, Bool, true, false, not, Option, none, some, List, [], ◌∷◌,
  map, keep, arith, str_eq, eq_iff, if◌then◌else◌, Bool-cases, inl, inr,
}
use tpf2mp.Base.Dict.{Dict, lookup, insert, count_of, add_at, lookup-insert, count_of-add_at}
use tpf2mp.Economy.Share.{proportional}
use tpf2mp.Economy.Share.Total.{IsDistinct}
use tpf2mp.Economy.Market.{Candidate, item, preview_items, is_capped, has_cid, merge, assign}
use tpf2mp.Economy.Market.Allocation.{capped_now, left_now, lookup-assign}
use tpf2mp.Economy.Market.Offers.{AreDistinct}

pub count_of-merge :
    (c : String) (preview d : Dict ℕ)
    → IsDistinct preview
    → count_of c (merge preview d) ≡ count_of c d + count_of c preview
unfolding merge
count_of-merge c [] d h = omega arith
count_of-merge c ((k, n) ∷ preview) d h =
    ground (arith, count_of-merge c preview (add_at k n d) h.1, count_of-add_at k c n d, eq_iff k c)

-- The candidate of a given `cid`.
abbrev pub find_cid : String → List Candidate → Option Candidate
find_cid c [] = none
find_cid c (option ∷ active) = if str_eq option.cid c then some option else find_cid c active

find_cid-cid :
    (c : String) (o : Candidate) (active : List Candidate) → find_cid c active ≡ some o → o.cid ≡ c
find_cid-cid c o [] h = cc
find_cid-cid c o (option ∷ active) h = ground (arith, find_cid-cid c o active, eq_iff option.cid c)

find_cid_absent :
    (c : String) (active : List Candidate)
    → lookup c (map item active) ≡ none
    → find_cid c active ≡ none
find_cid_absent c [] h = refl
find_cid_absent c (option ∷ active) h = ground (arith, find_cid_absent c active)

pub absent_of-find_cid :
    (c : String) (active : List Candidate)
    → find_cid c active ≡ none
    → lookup c (map item active) ≡ none
absent_of-find_cid c [] h = refl
absent_of-find_cid c (option ∷ active) h = ground (arith, absent_of-find_cid c active)

pub has_cid-none :
    (c : String) (active : List Candidate) → find_cid c active ≡ none → has_cid active c ≡ false
has_cid-none c [] h = refl
has_cid-none c (option ∷ active) h = ground (arith, has_cid-none c active)

has_cid-some :
    (c : String) (o : Candidate) (active : List Candidate)
    → find_cid c active ≡ some o
    → has_cid active c ≡ true
has_cid-some c o [] h = cc
has_cid-some c o (option ∷ active) h = ground (arith, has_cid-some c o active)

module _ (p : Candidate → Bool) (c : String) where
  pub find_cid-keep-none :
      (active : List Candidate) → find_cid c active ≡ none → find_cid c (keep p active) ≡ none
  find_cid-keep-none [] h = refl
  find_cid-keep-none (option ∷ active) h = ground (arith, find_cid-keep-none active)

  pub find_cid-keep :
      (o : Candidate) (active : List Candidate)
      → AreDistinct active
      → find_cid c active ≡ some o
      → find_cid c (keep p active) ≡ (if p o then some o else none)
  find_cid-keep o [] h e = cc
  find_cid-keep o (option ∷ active) h e = elim (Bool-cases (str_eq option.cid c)) [
    | inl same ↦
        ground
          (arith, eq_iff option.cid c, find_cid_absent c active, find_cid-keep-none active, h.0)
    | inr other ↦ ground (arith, find_cid-keep o active h.1)
  ]

pub count_of-assign :
    (c : String) (o : Candidate) (capped : List Candidate) (d : Dict ℕ)
    → AreDistinct capped
    → find_cid c capped ≡ some o
    → count_of c (assign capped d) ≡ o.service.capacity
unfolding assign
count_of-assign c o [] d h e = cc
count_of-assign c o (option ∷ capped) d h e =
    let next = insert option.cid option.service.capacity d in
    ground (
      arith,
      count_of-assign c o capped next h.1,
      eq_iff option.cid c,
      h.0,
      lookup-assign c capped next,
      has_cid-none c capped,
      find_cid_absent c capped,
      lookup-insert option.cid c option.service.capacity d,
    )

module _ (w remaining : ℕ) (active : List Candidate) (c : String) where
  -- A capped candidate is not left, and the others are.
  pub left_now-none : find_cid c active ≡ none → find_cid c (left_now w remaining active) ≡ none
  left_now-none h =
      find_cid-keep-none (λ option. not (has_cid (capped_now w remaining active) option.cid)) c
        active h

  pub left_now-some :
      (o : Candidate)
      → AreDistinct active
      → find_cid c active ≡ some o
      → find_cid c (left_now w remaining active)
        ≡ (if is_capped (proportional remaining (preview_items w active)) o then none else some o)
  left_now-some o distinct h =
      let p = is_capped (proportional remaining (preview_items w active)) in
      let capped = capped_now w remaining active in
      let named = find_cid-cid c o active h in
      rw (find_cid-keep (λ option. not (has_cid capped option.cid)) c o active distinct h)
        (elim (Bool-cases (p o)) [
          | inl taken ↦
              let there : has_cid capped c ≡ true =
                has_cid-some c o capped (find_cid-keep p c o active distinct h ∙ rw taken) in
              rw (taken, subst (λ k. has_cid capped k ≡ true) (sym named) there)
          | inr kept ↦
              let gone : has_cid capped c ≡ false =
                has_cid-none c capped (find_cid-keep p c o active distinct h ∙ rw kept) in
              rw (kept, subst (λ k. has_cid capped k ≡ false) (sym named) gone)
        ])
