-- ===== src/Pmm/Search.antt =====
-- The search loops of pmm_alloc_pages find the first run of free frames, or there is none.
use style9_os.Base.{
  ℕ, zero, suc, ◌+◌, ◌^◌, ◌≤◌, ◌<◌, ◌≡◌, subst, ap, ◌∙◌, ◌≢◌, inl, inr, true, false, Option, none,
  some, leb, ◌==◌, Bool-cases, arith, ℕ_discrete, dec_le, add64,
}
use style9_os.Pmm.{Pmm, is_used, free_run, find_run}

-- `n` free frames from `s` on
abbrev pub AllFree : Pmm → ℕ → ℕ → Type 0
AllFree p s n = (i : ℕ) → s ≤ i → i < s + n → is_used p i ≡ false

pub free_run-le : (n : ℕ) (p : Pmm) (s : ℕ) → free_run n p s ≤ n
unfolding free_run
free_run-le zero p s = omega arith
free_run-le (suc n) p s = ground (arith, free_run-le n p (s + 1))

pub free_run-AllFree : (n : ℕ) (p : Pmm) (s : ℕ) → AllFree p s (free_run n p s)
unfolding free_run
free_run-AllFree zero p s i lo hi = absurd (omega arith)
free_run-AllFree (suc n) p s i lo hi = elim (ℕ_discrete s i) [
  | yes e ↦ ground (arith, ap (is_used p) e)
  | no ne ↦ ground (arith, free_run-AllFree n p (s + 1) i)
]

-- A run shorter than asked for ends at a used frame.
pub free_run_stops :
    (n : ℕ) (p : Pmm) (s : ℕ) → free_run n p s < n → is_used p (s + free_run n p s) ≡ true
unfolding free_run
free_run_stops zero p s h = absurd (omega arith)
free_run_stops (suc n) p s h = elim (Bool-cases (is_used p s)) [
  | inl e ↦ rw (e, free_run) (ap (is_used p) (omega arith) ∙ e)
  | inr e ↦
      rw (e, free_run)
        (ap (is_used p) (omega arith) ∙ free_run_stops n p (s + 1) (ground (arith, e)))
]

-- What the search answers: the first run of `n` free frames in [s, limit), or there is none.
abbrev pub Found : Pmm → ℕ → ℕ → ℕ → Option ℕ → Type 0
Found p n limit s (some t) = (s ≤ t) × (t + n ≤ limit) × AllFree p t n
Found p n limit s none = (t : ℕ) → s ≤ t → t + n ≤ limit → ¬ AllFree p t n

-- Starts up to a used frame are no starts of a run that would reach over it.
Found-skip :
    (p : Pmm) (n limit s run : ℕ) (o : Option ℕ)
    → run < n
    → is_used p (s + run) ≡ true
    → Found p n limit (s + run + 1) o
    → Found p n limit s o
Found-skip p n limit s run none short used h = λ t lo hi. elim (dec_le t (s + run)) [
  | yes le ↦ λ free. cc (free (s + run) le (omega arith), used)
  | no gt ↦ h t (omega arith) hi
]
Found-skip p n limit s run (some t) short used h = (omega arith, h.1, h.2)

pub find_run-Found :
    (fuel : ℕ) (p : Pmm) (n limit s : ℕ)
    → limit < 2 ^ 32
    → n < 2 ^ 32
    → 0 < n
    → s ≤ limit + 1
    → limit < fuel + s
    → Found p n limit s (find_run fuel p n limit s)
unfolding find_run
find_run-Found zero p n limit s hl hn pos hs hf = λ t lo hi. absurd (omega arith)
find_run-Found (suc fuel) p n limit s hl hn pos hs hf = elim (dec_le (s + n) limit) [
  | yes fits ↦ elim (ℕ_discrete (free_run n p s) n) [
    | yes whole ↦
        rw (fits-test fits, whole-test whole)
          (omega arith, fits, subst (AllFree p s) whole (free_run-AllFree n p s))
    | no short ↦
        rw (fits-test fits, short-test short)
          (Found-skip p n limit s (free_run n p s) _ (omega (arith, free_run-le n p s))
            (free_run_stops n p s (omega (arith, free_run-le n p s)))
            (find_run-Found fuel p n limit (s + free_run n p s + 1) hl hn pos
              (omega (arith, free_run-le n p s)) (omega arith)))
  ]
  | no past ↦ rw (past-test past) (λ t lo hi. absurd (omega arith))
]
  where
    fits-test : s + n ≤ limit → leb (add64 s n) limit ≡ true
    fits-test h = ground arith

    past-test : ¬ (s + n ≤ limit) → leb (add64 s n) limit ≡ false
    past-test h = ground arith

    whole-test : free_run n p s ≡ n → (free_run n p s == n) ≡ true
    whole-test h = ground arith

    short-test : free_run n p s ≢ n → (free_run n p s == n) ≡ false
    short-test h = ground arith
