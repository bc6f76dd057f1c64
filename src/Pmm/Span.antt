-- ===== src/Pmm/Span.antt =====
-- Runs of frames taken or given back one by one, as pmm_alloc_pages and pmm_free_pages do.
use style9_os.Base.{
  ℕ, zero, suc, ◌+◌, ◌*◌, ◌≤◌, ◌<◌, ◌≡◌, refl, sym, ap, ◌∙◌, ◌≢◌, inl, inr, Bool, true, false, not,
  ◌&&◌, ◌||◌, none, some, leb, ltb, ◌==◌, if◌then◌else◌, Bool-cases, arith, count, bit_value,
}
use style9_os.Pmm.{Pmm, is_used, owners, mark_used, mark_free, ref_set, take_each, free_each}
use style9_os.Pmm.Invariant.{
  IsTracked, Update, mark_used-ref_set-Update, ref_set-mark_free-Update, count-is_used,
  Update-IsTracked, free-ne-zero, owned-ne-zero,
}
use style9_os.Pmm.Search.{AllFree}
use style9_os.Pmm.Owners.{owned-is_used}

-- frame `i` is one of the `n` from `s` on
abbrev pub within : ℕ → ℕ → ℕ → Bool
within s n i = leb s i && ltb i (s + n)

-- `q` is `p` with the `n` frames from `s` made `u` and given `v` owners.
pub record Span (p q : Pmm) (s n : ℕ) (u : Bool) (v : ℕ) : Type 0 where
  pub tracked : IsTracked q
  pub same_pages : q.managed_pages ≡ p.managed_pages
  pub used_at : (i : ℕ) → is_used q i ≡ (if within s n i then u else is_used p i)
  pub owners_at : (i : ℕ) → owners q i ≡ (if within s n i then v else owners p i)
  pub counted :
      count (is_used q) q.managed_pages + n * bit_value (not u)
      ≡ count (is_used p) p.managed_pages + n * bit_value u

Span-nil : (p : Pmm) (s : ℕ) (u : Bool) (v : ℕ) → IsTracked p → Span p p s 0 u v
Span-nil p s u v t = record {
  tracked = t;
  same_pages = refl;
  used_at = λ i. ground arith;
  owners_at = λ i. ground arith;
  counted = omega arith;
}

-- One frame first, and then the rest.
Span-cons :
    (p m q : Pmm) (s n : ℕ) (u : Bool) (v : ℕ)
    → Update p m s u v
    → s < p.managed_pages
    → is_used p s ≡ not u
    → Span m q (s + 1) n u v
    → Span p q s (suc n) u v
Span-cons p m q s n u v up inside e sp = record {
  tracked = sp.tracked;
  same_pages = sp.same_pages ∙ up.same_pages;
  used_at = λ i. ground (arith, sp.used_at i, up.used_at i);
  owners_at = λ i. ground (arith, sp.owners_at i, up.owners_at i);
  counted = ground (arith, sp.counted, count-is_used up inside, e);
}

pub take_each-Span :
    (n : ℕ) (p : Pmm) (s : ℕ)
    → IsTracked p
    → s + n ≤ p.managed_pages
    → AllFree p s n
    → Span p (take_each n p s) s n true 1
unfolding take_each
take_each-Span zero p s t fits free = Span-nil p s true 1 t
take_each-Span (suc n) p s t fits free = Span-cons p m _ s n true 1 up (omega arith) here (
    take_each-Span n m (s + 1)
      (Update-IsTracked up t (omega arith) (free-ne-zero p s t here) (omega arith) (λ h. cc))
      (omega (arith, up.same_pages)) (λ i lo hi. ground (arith, up.used_at i, free i)))
  where
    m : Pmm
    m = ref_set (mark_used p s) s 1

    here : is_used p s ≡ false
    here = free s (omega arith) (omega arith)

    up : Update p m s true 1
    up = mark_used-ref_set-Update p s 1 (omega arith) t.shaped (omega arith)

-- `n` frames from `s` on with one owner each
abbrev pub AllSole : Pmm → ℕ → ℕ → Type 0
AllSole p s n = (i : ℕ) → s ≤ i → i < s + n → owners p i ≡ 1

refused : Pmm → ℕ → Bool
refused p s = leb p.managed_pages s || not (is_used p s) || not (owners p s == 1)

pub free_each-Span :
    (n : ℕ) (p : Pmm) (s : ℕ)
    → IsTracked p
    → s + n ≤ p.managed_pages
    → AllSole p s n
    → (q : Pmm) × (free_each n p s ≡ some q) × Span p q s n false 0
unfolding free_each
free_each-Span zero p s t fits sole = (p, refl, Span-nil p s false 0 t)
free_each-Span (suc n) p s t fits sole =
    let here : owners p s ≡ 1 = sole s (omega arith) (omega arith) in
    let used : is_used p s ≡ true = owned-is_used p s t (omega (arith, here)) in
    let inside : s < p.managed_pages = omega arith in
    let up = ref_set-mark_free-Update p s 0 inside t.shaped (omega arith) in
    let (q, e, sp) =
      free_each-Span n (mark_free (ref_set p s 0) s) (s + 1)
        (Update-IsTracked up t inside (owned-ne-zero p s t (omega (arith, here))) (omega arith)
          (λ h. refl))
        (omega (arith, up.same_pages)) (λ i lo hi. ground (arith, up.owners_at i, sole i)) in
    (q, ground (arith, here, used, e), Span-cons p _ q s n false 0 up inside used sp)

-- In a tracked state, one frame of the run that does not have exactly one owner makes the loop of
-- pmm_free_pages panic.
pub free_each_panics :
    (n : ℕ) (p : Pmm) (s i : ℕ)
    → IsTracked p
    → s ≤ i
    → i < s + n
    → owners p i ≢ 1
    → free_each n p s ≡ none
unfolding free_each refused
free_each_panics zero p s i t lo hi bad = absurd (omega arith)
free_each_panics (suc n) p s i t lo hi bad = elim (Bool-cases (refused p s)) [
  | inl e ↦ ground (arith, e)
  | inr e ↦
      let here : owners p s ≡ 1 = ground (arith, e) in
      let inside : s < p.managed_pages = ground (arith, e) in
      let up = ref_set-mark_free-Update p s 0 inside t.shaped (omega arith) in
      let ne : s ≢ i = λ same. bad (ap (owners p) (sym same) ∙ here) in
      ground (
        arith,
        e,
        free_each_panics n (mark_free (ref_set p s 0) s) (s + 1) i
            (Update-IsTracked up t inside (owned-ne-zero p s t (omega (arith, here))) (omega arith)
              (λ h. refl))
            (omega arith) (omega arith) (ground (arith, up.owners_at i)),
      )
]
