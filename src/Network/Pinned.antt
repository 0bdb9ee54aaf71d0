-- ===== src/Network/Pinned.antt =====
-- companion/tpf2mp/transport_network.py, lines 136 to 156: what a pin changes.
use mathlib.Core.Path.{subst}
use tpf2mp.Network.Pins.{
  FreightMetadata, FreightServices, invalid_identity, conflicts, no_active_legs, is_path_digest,
  is_target, in_conflict, targets, pinned, pin_all, pin_path,
}
use tpf2mp.Base.{
  ℕ, ◌+◌, ◌<◌, ◌≡◌, refl, ◌∙◌, sym, ap, String, Bool, true, false, not, Option, none, some, List,
  [], ◌∷◌, arith, length, leb, if◌then◌else◌, str_eq, eq_iff, Bool-cases, inl, inr, if-cases, ok,
  ◌>>◌, raise_if, raise_if-tt, ok_of->>=, ok_of->>,
}
use tpf2mp.Base.Dict.{lookup, insert, lookup-insert, keys}
use tpf2mp.Base.Keys.{occurs, occurs-sorted, lookup-occurs_pos}
use tpf2mp.Base.Sort.{sorted}

-- The targets are the lines on the path, and none of them is in conflict.
record AreTargets (services : FreightServices) (digest : String) (lines found : List String)
    : Type 0 where
  counts :
      (c : String)
      → occurs c found ≡ (if is_target digest (lookup c services) then occurs c lines else 0)
  agree : (c : String) → 0 < occurs c found → in_conflict digest (lookup c services) ≡ false

from_zero : (b : Bool) (x y : ℕ) → x ≡ (if b then y else 0) → 0 + x ≡ (if b then 0 + y else 0)
from_zero true x y h = omega (arith, h)
from_zero false x y h = omega (arith, h)

module _ (services : FreightServices) (digest : String) where
  AreTargets-nil : AreTargets services digest [] []
  AreTargets-nil = record { counts = λ c. ground arith; agree = λ c h. absurd (omega (arith, h)) }

  AreTargets-skip :
      (line : String) (lines found : List String)
      → is_target digest (lookup line services) ≡ false
      → AreTargets services digest lines found
      → AreTargets services digest (line ∷ lines) found
  AreTargets-skip line lines found other h = record {
    counts = λ c. elim (Bool-cases (str_eq line c)) [
      | inl same ↦
          let key : line ≡ c = (eq_iff line c).0 same in
          let off : is_target digest (lookup c services) ≡ false =
            subst (λ x. is_target digest (lookup x services) ≡ false) key other in
          h.counts c ∙ rw off refl
      | inr apart ↦ h.counts c ∙ rw apart (ground arith)
    ];
    agree = h.agree;
  }

  AreTargets-take :
      (line : String) (lines found : List String)
      → is_target digest (lookup line services) ≡ true
      → in_conflict digest (lookup line services) ≡ false
      → AreTargets services digest lines found
      → AreTargets services digest (line ∷ lines) (line ∷ found)
  AreTargets-take line lines found on ok_here h = record {
    counts = λ c. elim (Bool-cases (str_eq line c)) [
      | inl same ↦
          let key : line ≡ c = (eq_iff line c).0 same in
          let here : is_target digest (lookup c services) ≡ true =
            subst (λ x. is_target digest (lookup x services) ≡ true) key on in
          let counted : occurs c found ≡ occurs c lines =
            subst (λ b. occurs c found ≡ (if b then occurs c lines else 0)) here (h.counts c) in
          rw (here, same) (omega (arith, counted))
      | inr apart ↦ rw apart (
          from_zero (is_target digest (lookup c services)) (occurs c found) (occurs c lines)
            (h.counts c))
    ];
    agree = λ c seen. elim (Bool-cases (str_eq line c)) [
      | inl same ↦
          let key : line ≡ c = (eq_iff line c).0 same in
          subst (λ x. in_conflict digest (lookup x services) ≡ false) key ok_here
      | inr apart ↦ h.agree c (ground (arith, seen, apart))
    ];
  }

  targets-AreTargets :
      (lines found : List String)
      → targets services digest lines ≡ ok found
      → AreTargets services digest lines found
  unfolding targets
  targets-AreTargets [] found h =
      let same : [] ≡ found = cc in subst (AreTargets services digest []) same AreTargets-nil
  targets-AreTargets (line ∷ lines) found h =
      elim (if-cases (is_target digest (lookup line services)) _ _ _ h) [
        | inl (on, taken) ↦
            let guard = raise_if (in_conflict digest (lookup line services)) conflicts in
            let (later, same, q) = ok_of->>= (guard >> targets services digest lines) _ taken in
            let (g, rest) = ok_of->> guard (targets services digest lines) q in
            let whole : line ∷ later ≡ found = cc in
            subst (AreTargets services digest (line ∷ lines)) whole (
              AreTargets-take line lines later on (raise_if-tt _ _ g)
                (targets-AreTargets lines later rest))
        | inr (off, rest) ↦
            AreTargets-skip line lines found off (targets-AreTargets lines found rest)
      ]

pinned-again :
    (digest : String) (o : Option (Option FreightMetadata))
    → pinned digest (some (pinned digest o)) ≡ pinned digest o
pinned-again digest none = refl
pinned-again digest (some none) = refl
pinned-again digest (some (some m)) = refl

pin_all-off :
    (services : FreightServices) (digest : String) (lines : List String) (c : String)
    → occurs c lines ≡ 0
    → lookup c (pin_all services digest lines) ≡ lookup c services
unfolding pin_all
pin_all-off services digest [] c h = refl
pin_all-off services digest (line ∷ lines) c h =
    let value = pinned digest (lookup line services) in
    let apart : str_eq line c ≡ false = ground (arith, h) in
    pin_all-off (insert line value services) digest lines c (ground (arith, h))
    ∙ cc (lookup-insert line c value services, apart)

pin_all-on :
    (services : FreightServices) (digest : String) (lines : List String) (c : String)
    → 0 < occurs c lines
    → lookup c (pin_all services digest lines) ≡ some (pinned digest (lookup c services))
unfolding pin_all
pin_all-on services digest [] c h = absurd (omega (arith, h))
pin_all-on services digest (line ∷ lines) c h =
    let value = pinned digest (lookup line services) in
    let next = insert line value services in
    elim (Bool-cases (str_eq line c)) [
      | inl same ↦
          let key : line ≡ c = (eq_iff line c).0 same in
          let here : lookup c next ≡ some value = cc (lookup-insert line c value services, same) in
          let told : some value ≡ some (pinned digest (lookup c services)) =
            ap (λ k. some (pinned digest (lookup k services))) key in
          elim (Bool-cases (leb 1 (occurs c lines))) [
            | inl more ↦
                pin_all-on next digest lines c (ground (arith, more))
                ∙ ap (λ o. some (pinned digest o)) here
                ∙ ap some (pinned-again digest (lookup line services))
                ∙ told
            | inr last ↦ pin_all-off next digest lines c (ground (arith, last)) ∙ here ∙ told
          ]
      | inr apart ↦
          let there : lookup c next ≡ lookup c services =
            cc (lookup-insert line c value services, apart) in
          pin_all-on next digest lines c (ground (arith, h, apart))
          ∙ ap (λ o. some (pinned digest o)) there
    ]

is_target-some :
    (digest : String) (o : Option (Option FreightMetadata))
    → is_target digest o ≡ true
    → (m : Option FreightMetadata) × (o ≡ some m)
is_target-some digest none h = absurd (cc)
is_target-some digest (some m) h = (m, refl)

-- Where a pin succeeds, it has found at least one line on the path and none that is in conflict; every
-- line on the path is pinned to it, and no other line is changed.
pub pin_path_lem :
    (services after : FreightServices) (digest : String) (n : ℕ)
    → pin_path services digest ≡ ok (n, after)
    → (0 < n)
      × ((c : String)
          → (is_target digest (lookup c services) ≡ true
              → (in_conflict digest (lookup c services) ≡ false)
                × (lookup c after ≡ some (pinned digest (lookup c services))))
            × (is_target digest (lookup c services) ≡ false → lookup c after ≡ lookup c services))
unfolding pin_path
pin_path_lem services after digest n h =
    let identity = raise_if (not (is_path_digest digest)) invalid_identity in
    let search = targets services digest (sorted (keys services)) in
    let (lines, after_search, q) = ok_of->>= (identity >> search) _ h in
    let (_, searched) = ok_of->> identity search q in
    let (some_legs, result) =
      ok_of->> (raise_if (leb (length lines) 0) no_active_legs) _ after_search in
    let found = targets-AreTargets services digest (sorted (keys services)) lines searched in
    let pinned_all : pin_all services digest lines ≡ after = cc in
    let counted : length lines ≡ n = cc in
    (
      ground (arith, raise_if-tt _ _ some_legs, counted),
      λ c. (
        λ on.
            let (m, there) = is_target-some digest (lookup c services) on in
            let taken : occurs c lines ≡ occurs c (sorted (keys services)) =
              subst (λ b. occurs c lines ≡ (if b then occurs c (sorted (keys services)) else 0)) on
                (found.counts c) in
            let seen : 0 < occurs c lines = omega (
              arith,
              taken,
              occurs-sorted c (keys services),
              lookup-occurs_pos c m services there,
            ) in
            (
              found.agree c seen,
              ap (lookup c) (sym pinned_all) ∙ pin_all-on services digest lines c seen,
            ),
        λ off.
            let unseen : occurs c lines ≡ 0 =
              subst (λ b. occurs c lines ≡ (if b then occurs c (sorted (keys services)) else 0)) off
                (found.counts c) in
            ap (lookup c) (sym pinned_all) ∙ pin_all-off services digest lines c unseen,
      ),
    )
