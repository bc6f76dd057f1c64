-- ===== src/Base/Count.antt =====
-- How many numbers below a bound pass a test: what a bitmap's population counters count.
use Prim.Native.Nat.{ℕ, zero, suc, ◌+◌, ◌≤◌, ◌<◌}
use mathlib.Core.Path.{◌≡◌, refl, sym, subst, ap₂}
use mathlib.Core.Bool.{Bool, true, false}
use native.Mathlib.Omega.{arith}
use native.Mathlib.Decide.{ℕ_discrete}
use style9_os.Base.Tests.{◌==◌, if◌then◌else◌}

abbrev pub bit_value : Bool → ℕ
bit_value b = if b then 1 else 0

unfoldable pub count : (ℕ → Bool) → ℕ → ℕ
count f zero = 0
count f (suc n) = count f n + bit_value (f n)

pub count_ext : (f g : ℕ → Bool) (n : ℕ) → ((i : ℕ) → i < n → f i ≡ g i) → count f n ≡ count g n
unfolding count
count_ext f g zero h = refl
count_ext f g (suc n) h =
    ap₂ (λ a b. a + bit_value b) (count_ext f g n (λ i lt. h i (omega arith))) (h n (omega arith))

pub count_all : (f : ℕ → Bool) (n : ℕ) → ((i : ℕ) → i < n → f i ≡ true) → count f n ≡ n
unfolding count
count_all f zero h = refl
count_all f (suc n) h =
    let rest = count_all f n (λ i l. h i (omega arith)) in ground (arith, h n (omega arith), rest)

pub count_none : (f : ℕ → Bool) (n : ℕ) → ((i : ℕ) → i < n → f i ≡ false) → count f n ≡ 0
unfolding count
count_none f zero h = refl
count_none f (suc n) h =
    let rest = count_none f n (λ i l. h i (omega arith)) in ground (arith, h n (omega arith), rest)

-- Changing the test at one place changes the count by that place alone.
pub count_update :
    (f g : ℕ → Bool) (idx : ℕ) (u : Bool) (n : ℕ)
    → idx < n
    → ((i : ℕ) → g i ≡ (if i == idx then u else f i))
    → count g n + bit_value (f idx) ≡ count f n + bit_value u
unfolding count
count_update f g idx u zero lt h = absurd (omega arith)
count_update f g idx u (suc n) lt h = elim (ℕ_discrete idx n) [
  | yes e ↦ ground (arith, h n, h idx, e, count_ext g f n (below e))
  | no ne ↦ ground (arith, h n, count_update f g idx u n (omega arith) h)
]
  where
    below : idx ≡ n → (i : ℕ) → i < n → g i ≡ f i
    below e i l = ground (arith, h i)

pub count-le : (f : ℕ → Bool) (n : ℕ) → count f n ≤ n
unfolding count
count-le f zero = omega arith
count-le f (suc n) = ground (arith, count-le f n)

pub count_pos : (f : ℕ → Bool) (idx n : ℕ) → idx < n → f idx ≡ true → 0 < count f n
unfolding count
count_pos f idx zero lt h = absurd (omega arith)
count_pos f idx (suc n) lt h = elim (ℕ_discrete idx n) [
  | yes e ↦ ground (arith, e)
  | no ne ↦ ground (arith, count_pos f idx n (omega arith) h)
]

-- Places past the old bound that do not pass the test do not count.
pub count_wider :
    (f g : ℕ → Bool) (n m : ℕ)
    → n ≤ m
    → ((i : ℕ) → i < n → g i ≡ f i)
    → ((i : ℕ) → n ≤ i → i < m → g i ≡ false)
    → count g m ≡ count f n
unfolding count
count_wider f g n zero h same none_more = let e : n ≡ 0 = omega arith in rw e refl
count_wider f g n (suc m) h same none_more = elim (ℕ_discrete n (suc m)) [
  | yes e ↦
      subst (λ k. count g (suc m) ≡ count f k) (sym e)
        (count_ext g f (suc m) (λ i l. same i (omega arith)))
  | no ne ↦
      let rest = count_wider f g n m (omega arith) same (λ i l u. none_more i l (omega arith)) in
      ground (arith, none_more m (omega arith) (omega arith), rest)
]
