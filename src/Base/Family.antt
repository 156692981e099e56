-- ===== src/Base/Family.antt =====
-- Families `ℕ → A`, as the program's arrays are: with update at one index.
use Prim.Native.Nat.{ℕ}
use mathlib.Core.Path.{◌≡◌, fun_ext}
use native.Mathlib.Omega.{arith}
use multi_process_threading.Base.Tests.{◌==◌, if◌then◌else◌}

abbrev pub update {ℓ} : {A : Type ℓ} → (ℕ → A) → ℕ → A → ℕ → A
update f i a j = if i == j then a else f j

pub update_self {ℓ} : {A : Type ℓ} (f : ℕ → A) (i : ℕ) (a : A) → update f i a i ≡ a
update_self f i a = ground arith

pub update-update {ℓ} :
    {A : Type ℓ} (f : ℕ → A) (i : ℕ) (a b : A) → update (update f i a) i b ≡ update f i b
update-update f i a b = fun_ext λ j. ground arith

pub update-same {ℓ} : {A : Type ℓ} (f : ℕ → A) (i : ℕ) → update f i (f i) ≡ f
update-same f i = fun_ext λ j. ground arith

-- Put back what stood there.
pub update-restore {ℓ} :
    {A : Type ℓ} (f : ℕ → A) (i : ℕ) (a b : A) → f i ≡ b → update (update f i a) i b ≡ f
update-restore f i a b e = fun_ext λ j. ground arith
