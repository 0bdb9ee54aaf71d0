-- ===== src/Base/Results.antt =====
-- Code that may raise: a result, its sequencing, and the guard of an early `raise`.
use mathlib.Core.Path.{◌≡◌, refl, subst}
use mathlib.Core.Bool.{Bool, true, false}
use mathlib.Core.Option.{Option, none, some}

pub data Result {ℓ κ} (E : Type ℓ) (A : Type κ) : Type (ℓ ⊔ κ) where
  err : E → Result E A
  ok : A → Result E A

infixl 5 ◌>>=◌ ◌>>◌
abbrev pub ◌>>=◌ {ℓ κ μ} :
    {E : Type ℓ} {A : Type κ} {B : Type μ} → Result E A → (A → Result E B) → Result E B
err e >>= rest = err e
ok a >>= rest = rest a

abbrev pub ◌>>◌ {ℓ μ} : {E : Type ℓ} {B : Type μ} → Result E (Unit {0}) → Result E B → Result E B
first >> rest = first >>= λ _. rest

-- `if condition: raise e`
abbrev pub raise_if {ℓ} : {E : Type ℓ} → Bool → E → Result E (Unit {0})
raise_if true e = err e
raise_if false e = ok tt

-- `if value is None: raise e`
abbrev pub or_raise {ℓ κ} : {E : Type ℓ} {A : Type κ} → Option A → E → Result E A
or_raise none e = err e
or_raise (some a) e = ok a

-- What a run without an error says of its first step and of the rest.
pub ok_of->>= {ℓ κ μ} :
    {E : Type ℓ} {A : Type κ} {B : Type μ} {b : B} (first : Result E A) (rest : A → Result E B)
    → first >>= rest ≡ ok b
    → (a : A) × (rest a ≡ ok b) × (first ≡ ok a)
ok_of->>= (err e) rest h = cc
ok_of->>= (ok a) rest h = (a, h, refl)

-- The same where the first step has no value.
pub ok_of->> {ℓ μ} :
    {E : Type ℓ} {B : Type μ} {b : B} (first : Result E (Unit {0})) (rest : Result E B)
    → first >> rest ≡ ok b
    → (first ≡ ok tt) × (rest ≡ ok b)
ok_of->> (err e) rest h = cc
ok_of->> (ok tt) rest h = (refl, h)

-- A guard that lets the run go on.
pub raise_if-tt {ℓ} : {E : Type ℓ} (b : Bool) (e : E) → raise_if b e ≡ ok tt → b ≡ false
raise_if-tt true e h = cc
raise_if-tt false e h = refl

-- Runs that raise nothing.
abbrev pub Runs {ℓ κ} : {E : Type ℓ} {A : Type κ} → Result E A → Type (ℓ ⊔ κ)
Runs {A = A} first = (a : A) × (first ≡ ok a)

pub Runs->>= {ℓ κ μ} :
    {E : Type ℓ} {A : Type κ} {B : Type μ} (first : Result E A) (rest : A → Result E B) (a : A)
    → first ≡ ok a
    → Runs (rest a)
    → Runs (first >>= rest)
Runs->>= (err e) rest a h k = absurd (cc)
Runs->>= (ok b) rest a h k = let same : a ≡ b = cc in subst (λ x. Runs (rest x)) same k
