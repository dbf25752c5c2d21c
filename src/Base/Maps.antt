-- ===== src/Base/Maps.antt =====
-- A table as a function, changed at one key.
use Prim.Native.Nat.{ℕ}
use mathlib.Core.Path.{◌≡◌}
use mathlib.Core.Bool.{false}
use mathlib.Core.Logic.{inl, inr}
use native.Mathlib.Omega.{arith}
use android_kernel_programmi.Base.Tests.{◌==◌, if◌then◌else◌, Bool-cases}

abbrev pub update {ℓ} : {A : Type ℓ} → (ℕ → A) → ℕ → A → ℕ → A
update f p v q = if p == q then v else f q

pub update_self {ℓ} : {A : Type ℓ} (f : ℕ → A) (p : ℕ) (v : A) → update f p v p ≡ v
update_self f p v = ground arith

pub update_ne {ℓ} :
    {A : Type ℓ} (f : ℕ → A) (p q : ℕ) (v : A) → (p == q) ≡ false → update f p v q ≡ f q
update_ne f p q v h = ground arith

-- What holds of the new value, and of the old ones elsewhere, holds of every entry.
pub update_any {ℓ κ} :
    {A : Type ℓ} (P : A → Type κ) (f : ℕ → A) (p : ℕ) (v : A)
    → P v
    → ((i : ℕ) → (p == i) ≡ false → P (f i))
    → (i : ℕ) → P (update f p v i)
update_any P f p v h k i = elim (Bool-cases (p == i)) [ inl e ↦ rw e h | inr e ↦ rw e (k i e) ]
