-- ===== src/Prelude/Results.antt =====
-- Code that may raise: a result, its `do` blocks, and the guards.
use mathlib.Core.Path.{◌≡◌, refl}
use mathlib.Core.Logic.{◌↔◌}
use mathlib.Core.Bool.{Bool, true, false, not}
use mathlib.Core.Option.{Option, none, some}
use guardian_llmprovider_gat.Prelude.Tests.{if◌then◌else◌}

pub data Result {ℓ κ} (E : Type ℓ) (A : Type κ) : Type (ℓ ⊔ κ) where
  ok : A → Result E A
  err : E → Result E A

infixl 5 ◌>>=◌ ◌>>◌
abbrev pub ◌>>=◌ {ℓ κ λ'} :
    {E : Type ℓ} {A : Type κ} {B : Type λ'} → Result E A → (A → Result E B) → Result E B
ok a >>= f = f a
err e >>= f = err e

abbrev pub ◌>>◌ {ℓ κ} : {E : Type ℓ} {B : Type κ} → Result E (Unit {0}) → Result E B → Result E B
m >> k = m >>= λ _. k

-- `if not test: raise e`
abbrev pub guard {ℓ} : {E : Type ℓ} → Bool → E → Result E (Unit {0})
guard true e = ok tt
guard false e = err e

-- `if value is None: raise e`
abbrev pub or_raise {ℓ κ} : {E : Type ℓ} {A : Type κ} → Option A → E → Result E A
or_raise none e = err e
or_raise (some a) e = ok a

module _ {ℓ κ} {E : Type ℓ} {A : Type κ} where
  pub >>_iff :
      (m : Result E (Unit {0})) (k : Result E A) (a : A)
      → ((m >> k) ≡ ok a) ↔ ((m ≡ ok tt) × (k ≡ ok a))
  >>_iff (ok u) k a = (λ h. (refl, h), λ h. h.1)
  >>_iff (err e) k a = (λ h. cc, λ h. cc h.0)

  -- `if test: raise e`
  pub raise_iff :
      (b : Bool) (e : E) (k : Result E A) (a : A)
      → ((if b then err e else k) ≡ ok a) ↔ ((b ≡ false) × (k ≡ ok a))
  raise_iff true e k a = (λ h. cc, λ h. cc h.0)
  raise_iff false e k a = (λ h. (refl, h), λ h. h.1)

pub guard_iff {ℓ} : {E : Type ℓ} (b : Bool) (e : E) → (guard b e ≡ ok tt) ↔ (b ≡ true)
guard_iff true e = (λ h. refl, λ h. refl)
guard_iff false e = (λ h. cc, λ h. cc)

pub guard-not_iff {ℓ} : {E : Type ℓ} (b : Bool) (e : E) → (guard (not b) e ≡ ok tt) ↔ (b ≡ false)
guard-not_iff true e = (λ h. cc, λ h. cc)
guard-not_iff false e = (λ h. refl, λ h. refl)

pub >>=_iff {ℓ κ λ'} :
    {E : Type ℓ} {A : Type κ} {B : Type λ'} (m : Result E A) (f : A → Result E B) (b : B)
    → ((m >>= f) ≡ ok b) ↔ ((a : A) × (m ≡ ok a) × (f a ≡ ok b))
>>=_iff (ok x) f b = (λ h. (x, refl, h), λ (a, e, h). let same : x ≡ a = cc in rw same h)
>>=_iff (err e) f b = (λ h. cc, λ (a, e', h). cc)

pub or_raise_iff {ℓ κ} :
    {E : Type ℓ} {A : Type κ} (o : Option A) (e : E) (a : A) → (or_raise o e ≡ ok a) ↔ (o ≡ some a)
or_raise_iff none e a = (λ h. cc, λ h. cc)
or_raise_iff (some x) e a = (λ h. cc, λ h. cc)
