-- ===== src/Pmm/Runs.antt =====
-- pmm_alloc_pages and pmm_free_pages: a run of frames taken at once, and given back at once.
use style9_os.Base.{
  ℕ, zero, suc, ◌+◌, ◌*◌, ◌%◌, ◌^◌, ◌≤◌, ◌<◌, ◌≡◌, refl, ap, ◌≢◌, ◌⊎◌, inl, inr, Bool, true, false,
  Option, none, some, ◌==◌, arith, count-le, sub64,
}
use style9_os.Pmm.{
  Pmm, is_used, take_each, take_run, alloc_pages, pa_invalid, free_each, free_pages, finish_free,
  page_index, mark_free, ref_set,
}
use style9_os.Pmm.RoundTrip.{SameFrames}
use style9_os.Pmm.Invariant.{IsValid}
use style9_os.Pmm.Search.{AllFree, Found, find_run-Found}
use style9_os.Pmm.Span.{Span, take_each-Span, AllSole, free_each-Span}

-- What pmm_alloc_pages does for two frames or more: it takes a run of free frames; or it answers
-- PA_INVALID, changes nothing, and no run is free that ends by the top of memory and starts at or above the cursor, or
-- that ends at or below the cursor.
pub data RunAllocated (p : Pmm) (n : ℕ) (r : Pmm × ℕ) : Type 0 where
  taken :
      (s : ℕ)
      → s + n ≤ p.managed_pages
      → r.1 ≡ s * 4096
      → r.1 ≢ pa_invalid
      → AllFree p s n
      → Span p r.0 s n true 1
      → IsValid r.0
      → r.0.used_count ≡ p.used_count + n
      → RunAllocated p n r
  exhausted :
      r ≡ (p, pa_invalid)
      → ((s : ℕ)
          → (p.alloc_hint ≤ s) ⊎ (s + n ≤ p.alloc_hint)
          → s + n ≤ p.managed_pages
          → ¬ AllFree p s n)
      → RunAllocated p n r

Span-retarget :
    (p q : Pmm) (used hint nref nlast : ℕ) (s n : ℕ) (u : Bool) (v : ℕ)
    → Span p q s n u v
    → Span p
        (record q { used_count = used; alloc_hint = hint; n_ref = nref; n_lastref = nlast })
        s
        n
        u
        v
unfolding is_used
Span-retarget p q used hint nref nlast s n u v sp = record {
  tracked = record {
    shaped = record {
      words = sp.tracked.shaped.words;
      covered = sp.tracked.shaped.covered;
      counts = sp.tracked.shaped.counts;
      pa_end = sp.tracked.shaped.pa_end;
      small = sp.tracked.shaped.small;
    };
    shared_counted = sp.tracked.shared_counted;
    free_unowned = sp.tracked.free_unowned;
    owners_small = sp.tracked.owners_small;
    zero_used = sp.tracked.zero_used;
    zero_unowned = sp.tracked.zero_unowned;
  };
  same_pages = sp.same_pages;
  used_at = sp.used_at;
  owners_at = sp.owners_at;
  counted = sp.counted;
}

module _ (p : Pmm) (n s : ℕ) (v : IsValid p) (pos : 0 < n) (fits : s + n ≤ p.managed_pages)
    (free : AllFree p s n) where
  take_run-Span : Span p (take_run p n s).0 s n true 1
  unfolding take_run
  take_run-Span =
      Span-retarget p (take_each n p s) _ _ _ _ s n true 1
        (take_each-Span n p s v.tracked fits free)

  start-ne-zero : s ≢ 0
  start-ne-zero e = cc (v.tracked.zero_used, free 0 (omega arith) (omega arith))

  take_run-cursor :
      ((take_run p n s).0.used_count ≡ p.used_count + n)
      × ((take_run p n s).0.alloc_hint ≤ p.managed_pages)
      × ((take_run p n s).1 ≡ s * 4096)
  unfolding take_run
  take_run-cursor =
      omega (arith, v.used_counted, v.tracked.shaped.small, count-le (is_used p) p.managed_pages)

  take_run-RunAllocated : RunAllocated p n (take_run p n s)
  take_run-RunAllocated =
      let sp = take_run-Span in
      taken s fits take_run-cursor.2 (omega (arith, take_run-cursor.2, start-ne-zero)) free sp
        (record {
          tracked = sp.tracked;
          hint_in = omega (arith, take_run-cursor.1, sp.same_pages);
          used_counted = omega (arith, take_run-cursor.0, sp.counted, v.used_counted);
        })
        take_run-cursor.0

-- the two searches in turn
abbrev pick : Pmm → ℕ → Option ℕ → Option ℕ → Pmm × ℕ
pick p n upper lower = elim upper [
  | some s ↦ take_run p n s
  | none ↦ elim lower [ some s ↦ take_run p n s | none ↦ (p, pa_invalid) ]
]

pick-RunAllocated :
    (p : Pmm) (n : ℕ) (upper lower : Option ℕ)
    → IsValid p
    → 0 < n
    → Found p n p.managed_pages p.alloc_hint upper
    → Found p n p.alloc_hint 0 lower
    → RunAllocated p n (pick p n upper lower)
pick-RunAllocated p n (some s) lower v pos hu hl = take_run-RunAllocated p n s v pos hu.1 hu.2
pick-RunAllocated p n none (some s) v pos hu hl =
    take_run-RunAllocated p n s v pos (omega (arith, hl.1, v.hint_in)) hl.2
pick-RunAllocated p n none none v pos hu hl = exhausted refl no_run
  where
    no_run :
        (s : ℕ)
        → (p.alloc_hint ≤ s) ⊎ (s + n ≤ p.alloc_hint)
        → s + n ≤ p.managed_pages
        → ¬ AllFree p s n
    no_run s (inl above) fits = hu s above fits
    no_run s (inr below) fits = hl s (omega arith) below

-- In a valid state, for `n` from 2 to 2^32 - 1, pmm_alloc_pages takes a run of `n` free frames, one
-- owner each, and stays valid; or it answers PA_INVALID and changes nothing, and then no free run
-- of `n` frames lies wholly at or above the search cursor or wholly below it.
pub alloc_pages-RunAllocated :
    (p : Pmm) (n : ℕ) → IsValid p → 1 < n → n < 2 ^ 32 → RunAllocated p n (alloc_pages p n)
unfolding alloc_pages
alloc_pages-RunAllocated p n v many small =
    rw (not-zero, not-one)
      (pick-RunAllocated p n _ _ v (omega arith)
        (find_run-Found (suc p.managed_pages) p n p.managed_pages p.alloc_hint
          (omega (arith, v.tracked.shaped.small)) small (omega arith) (omega (arith, v.hint_in))
          (omega arith))
        (find_run-Found (suc p.managed_pages) p n p.alloc_hint 0
          (omega (arith, v.tracked.shaped.small, v.hint_in)) small (omega arith) (omega arith)
          (omega (arith, v.hint_in))))
  where
    not-zero : (n == 0) ≡ false
    not-zero = ground arith

    not-one : (n == 1) ≡ false
    not-one = ground arith

free_each-keeps :
    (n : ℕ) (p q : Pmm) (s : ℕ)
    → free_each n p s ≡ some q
    → (q.used_count ≡ p.used_count) × (q.alloc_hint ≡ p.alloc_hint)
unfolding free_each mark_free ref_set
free_each-keeps zero p q s e = ground arith
free_each-keeps (suc n) p q s e =
    ground (arith, free_each-keeps n (mark_free (ref_set p s 0) s) q (s + 1))

-- a run that starts on a frame boundary, lies inside memory and is solely owned throughout
pub record IsRun (p : Pmm) (pa n : ℕ) : Type 0 where
  pub aligned : pa % 4096 ≡ 0
  pub fits : page_index pa + n ≤ p.managed_pages
  pub sole : AllSole p (page_index pa) n

-- In a valid state pmm_free_pages gives back every frame of a run of solely owned frames, changes no
-- other frame and stays valid.
pub free_pages-Span :
    (p : Pmm) (pa n : ℕ)
    → IsValid p
    → IsRun p pa n
    → (q : Pmm) × (free_pages p pa n ≡ some q)
      × Span p q (page_index pa) n false 0
      × IsValid q
      × (q.used_count + n ≡ p.used_count)
unfolding free_pages finish_free
free_pages-Span p pa n v run =
    let (m, e, sp) = free_each-Span n p (page_index pa) v.tracked run.fits run.sole in
    let sp' = Span-retarget p m _ _ _ _ (page_index pa) n false 0 sp in
    let keeps = free_each-keeps n p m (page_index pa) e in
    let small = v.tracked.shaped.small in
    let total = count-le (is_used p) p.managed_pages in
    let counter : sub64 m.used_count n + n ≡ p.used_count =
      omega (arith, keeps.0, sp.counted, v.used_counted, small, total) in
    (
      finish_free n (page_index pa) m,
      ground (arith, e, run.aligned),
      sp',
      record {
        tracked = sp'.tracked;
        hint_in = ground (arith, keeps.1, v.hint_in, sp.same_pages, run.fits);
        used_counted = omega (arith, counter, sp'.counted, v.used_counted);
      },
      counter,
    )

-- In a valid state, for `n` from 2 to 2^32 - 1, a run that pmm_alloc_pages hands out can be given
-- back at once, and then every frame is used and owned as before.
pub free_pages-alloc_pages :
    (p : Pmm) (n : ℕ)
    → IsValid p
    → 1 < n
    → n < 2 ^ 32
    → (alloc_pages p n).1 ≢ pa_invalid
    → (r : Pmm) × (free_pages (alloc_pages p n).0 (alloc_pages p n).1 n ≡ some r) × SameFrames p r
free_pages-alloc_pages p n v many small some_run =
    go (alloc_pages p n) (alloc_pages-RunAllocated p n v many small) some_run
  where
    go :
        (a : Pmm × ℕ)
        → RunAllocated p n a
        → a.1 ≢ pa_invalid
        → (r : Pmm) × (free_pages a.0 a.1 n ≡ some r) × SameFrames p r
    go a (exhausted e all) ne = absurd (ne (ap (λ t. t.1) e))
    go a (taken s fits pa ne' free sp valid k) ne =
        let at : page_index a.1 ≡ s = omega arith in
        let (r, e, back, vr, c) = free_pages-Span a.0 a.1 n valid (record {
          aligned = omega arith;
          fits = omega (arith, sp.same_pages);
          sole = λ i lo hi. ground (arith, sp.owners_at i, at);
        }) in
        (
          r,
          e,
          record {
            same_used = λ i. ground (arith, back.used_at i, sp.used_at i, at, free i);
            same_owners = λ i.
                ground
                  (arith, back.owners_at i, sp.owners_at i, at, free i, v.tracked.free_unowned i);
            same_count = omega (arith, c, k);
          },
        )
