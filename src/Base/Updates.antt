-- ===== src/Base/Updates.antt =====
-- Arrays as functions on their indices: one element replaced.
use Prim.Native.Nat.{ℕ}
use mathlib.Core.Path.{◌≡◌, refl, sym, ap, fun_ext, ◌∙◌}
use mathlib.Core.Logic.{◌≢◌}
use mathlib.Core.Bool.{true, false}
use native.Mathlib.Omega.{arith}
use native.Mathlib.Decide.{ℕ_discrete}
use style9_os.Base.Tests.{◌==◌, if◌then◌else◌}

abbrev pub put {ℓ} : {A : Type ℓ} → (ℕ → A) → ℕ → A → ℕ → A
put f i a j = if j == i then a else f j

pub put_self {ℓ} : {A : Type ℓ} (f : ℕ → A) (i : ℕ) (a : A) (k : ℕ) → k ≡ i → put f i a k ≡ a
put_self f i a k e = let here : (k == i) ≡ true = ground (arith, e) in rw here refl

pub put-other {ℓ} : {A : Type ℓ} (f : ℕ → A) (i : ℕ) (a : A) (k : ℕ) → k ≢ i → put f i a k ≡ f k
put-other f i a k ne = let there : (k == i) ≡ false = ground (arith, ne) in rw there refl

pub put-same {ℓ} : {A : Type ℓ} (f : ℕ → A) (i : ℕ) → f ≡ put f i (f i)
put-same f i = fun_ext (λ j. elim (ℕ_discrete j i) [
  | yes e ↦ ap f e ∙ sym (put_self f i (f i) j e)
  | no ne ↦ sym (put-other f i (f i) j ne)
])
