-- ===== src/Prelude/Options.antt =====
-- Results that may be missing: chains of them, and what a result says of its chain.
use mathlib.Core.Path.{◌≡◌, refl, ap}
use mathlib.Core.Bool.{Bool, true, false}
use mathlib.Core.Option.{Option, none, some}
use cloud_desktop.Prelude.Tests.{if◌then◌else◌}

infixl 5 ◌>>=◌
abbrev pub ◌>>=◌ {ℓ κ} : {A : Type ℓ} {B : Type κ} → Option A → (A → Option B) → Option B
none >>= f = none
some a >>= f = f a

pub some-bind {ℓ κ} :
    {A : Type ℓ} {B : Type κ} (o : Option A) (f : A → Option B) {b : B}
    → (o >>= f) ≡ some b
    → (a : A) × (o ≡ some a) × (f a ≡ some b)
some-bind none f e = cc
some-bind (some a) f e = (a, refl, e)

-- A result behind a guard.
pub some-else {ℓ} :
    {A : Type ℓ} (guard : Bool) {o : Option A} {a : A}
    → (if guard then none else o) ≡ some a
    → o ≡ some a
some-else true e = cc
some-else false e = e

pub some_inj {ℓ} : {A : Type ℓ} {a b : A} → some a ≡ some b → a ≡ b
some_inj {a = a} e = ap (λ o. elim o [ none ↦ a | some x ↦ x ]) e

-- A result that comes from one of two branches.
pub some-if {ℓ κ} :
    {A : Type ℓ} {Q : Type κ} (b : Bool) (x y : Option A) {a : A}
    → (if b then x else y) ≡ some a
    → (x ≡ some a → Q)
    → (y ≡ some a → Q)
    → Q
some-if true x y e h k = h e
some-if false x y e h k = k e
