-- ===== src/Pmm/Tests.antt =====
-- vm/pmm.c at one state: six managed frames, of which 0 is reserved, 1 and 2 have one owner, 3 has two
-- and the last two are free.
use style9_os.Base.{
  ℕ, zero, suc, ◌+◌, ◌^◌, ◌≤◌, ◌<◌, ◌≡◌, refl, ◌≢◌, ◌⊎◌, true, false, none, some, [], ◌∷◌, length,
  get_or, replicate, arith, count,
}
use style9_os.Memmap.{Memmap, free}
use style9_os.Pmm.{
  Pmm, is_used, owners, alloc_page, alloc_pages, free_page, free_pages, page_ref, page_index,
  pa_invalid, alloc_from, take_frame, ref_set, find_run, free_run, take_run, take_each,
}
use style9_os.Pmm.Invariant.{IsValid}
use style9_os.Pmm.Scan.{Allocated, alloc_page-Allocated}
use style9_os.Pmm.Owners.{IsOwned, Dropped, Shared, free_page_cases, page_ref_cases}
use style9_os.Pmm.RoundTrip.{SameFrames, free_page-alloc_page}
use style9_os.Pmm.Span.{Span}
use style9_os.Pmm.Runs.{RunAllocated, IsRun, alloc_pages-RunAllocated, free_pages-Span}
use style9_os.Pmm.Init.{init, free_end, managed_end}
use style9_os.Pmm.Init.Started.{Started}
use style9_os.Pmm.Init.Start.{HomeOf, init_cases}

abbrev six : Pmm
six = record {
  bitmap = (true ∷ true ∷ true ∷ true ∷ replicate 60 false) ∷ [];
  managed_pages = 6;
  managed_pa_end = 24576;
  alloc_hint = 0;
  used_count = 4;
  refs = 0 ∷ 1 ∷ 1 ∷ 2 ∷ 0 ∷ 0 ∷ [];
  shared_count = 1;
  n_ref = 1;
  n_lastref = 0;
}

six_words : (w : ℕ) → w < 1 → length (get_or six.bitmap w []) ≡ 64
six_words zero h = refl
six_words (suc w) h = absurd (omega arith)

six_free : (i : ℕ) → is_used six i ≡ false → owners six i ≡ 0
unfolding is_used
six_free zero h = refl
six_free (suc zero) h = absurd (ground (arith, h))
six_free (suc (suc zero)) h = absurd (ground (arith, h))
six_free (suc (suc (suc zero))) h = absurd (ground (arith, h))
six_free (suc (suc (suc (suc zero)))) h = refl
six_free (suc (suc (suc (suc (suc zero))))) h = refl
six_free (suc (suc (suc (suc (suc (suc i)))))) h = refl

six_small : (i : ℕ) → owners six i < 2 ^ 16
six_small zero = omega arith
six_small (suc zero) = omega arith
six_small (suc (suc zero)) = omega arith
six_small (suc (suc (suc zero))) = omega arith
six_small (suc (suc (suc (suc zero)))) = omega arith
six_small (suc (suc (suc (suc (suc zero))))) = omega arith
six_small (suc (suc (suc (suc (suc (suc i)))))) = omega arith

six-IsValid : IsValid six
unfolding is_used count
six-IsValid = record {
  tracked = record {
    shaped = record {
      words = six_words;
      covered = omega arith;
      counts = refl;
      pa_end = refl;
      small = omega arith;
    };
    shared_counted = refl;
    free_unowned = six_free;
    owners_small = six_small;
    zero_used = refl;
    zero_unowned = refl;
  };
  hint_in = omega arith;
  used_counted = refl;
}

six_run : (i : ℕ) → 1 ≤ i → i < 3 → owners six i ≡ 1
six_run zero l h = absurd (omega arith)
six_run (suc zero) l h = refl
six_run (suc (suc zero)) l h = refl
six_run (suc (suc (suc i))) l h = absurd (omega arith)

six-IsRun : IsRun six 4096 2
six-IsRun = record { aligned = refl; fits = omega arith; sole = six_run }

alloc_page-Allocated_example : Allocated six (alloc_page six)
alloc_page-Allocated_example = alloc_page-Allocated six six-IsValid

free_page_cases_example :
    (IsOwned six 12288
      × ((q : Pmm) × (free_page six 12288 ≡ some q) × Dropped six q (page_index 12288)))
    ⊎ ((¬ IsOwned six 12288) × (free_page six 12288 ≡ none))
free_page_cases_example = free_page_cases six 12288 six-IsValid

page_ref_cases_example :
    (IsOwned six 4096
      × (owners six (page_index 4096) < 0xFFFF)
      × ((q : Pmm) × (page_ref six 4096 ≡ some q) × Shared six q (page_index 4096)))
    ⊎ (((¬ IsOwned six 4096) ⊎ (owners six (page_index 4096) ≡ 0xFFFF))
        × (page_ref six 4096 ≡ none))
page_ref_cases_example = page_ref_cases six 4096 six-IsValid

six_page : (alloc_page six).1 ≡ 16384
unfolding alloc_page alloc_from is_used take_frame
six_page = refl

six_frame : (alloc_page six).1 ≢ pa_invalid
six_frame e = omega (arith, six_page, e)

free_page-alloc_page_example :
    (r : Pmm) × (free_page (alloc_page six).0 (alloc_page six).1 ≡ some r) × SameFrames six r
free_page-alloc_page_example = free_page-alloc_page six six-IsValid six_frame

-- `six` with a second owner of frame 1
abbrev six_shared : Pmm
six_shared = record six { refs = 0 ∷ 2 ∷ 1 ∷ 2 ∷ 0 ∷ 0 ∷ []; shared_count = 2; n_ref = 2 }

six_ref : page_ref six 4096 ≡ some six_shared
unfolding page_ref is_used ref_set
six_ref = refl

alloc_pages-RunAllocated_example : RunAllocated six 2 (alloc_pages six 2)
alloc_pages-RunAllocated_example =
    alloc_pages-RunAllocated six 2 six-IsValid (omega arith) (omega arith)

six_run_page : (alloc_pages six 2).1 ≡ 16384
unfolding alloc_pages find_run free_run is_used take_run take_each
six_run_page = refl

six_run_found : (alloc_pages six 2).1 ≢ pa_invalid
six_run_found e = omega (arith, six_run_page, e)

free_pages-Span_example :
    (q : Pmm) × (free_pages six 4096 2 ≡ some q)
    × Span six q (page_index 4096) 2 false 0
    × IsValid q
    × (q.used_count + 2 ≡ six.used_count)
free_pages-Span_example = free_pages-Span six 4096 2 six-IsValid six-IsRun

-- a machine with 16 MiB
abbrev machine : Memmap
machine = record {
  entries =
      record { base = 0; len = 654336; kind = free }
      ∷ record { base = 1048576; len = 15728640; kind = free }
      ∷ [];
  total_bytes = 16382976;
  free_bytes = 16382976;
  max_pa = 16777216;
}

init_cases_example :
    ((p : Pmm) × (bm_pa : ℕ) × (init machine 1048576 2097152 ≡ some p)
      × HomeOf machine 1048576 2097152 bm_pa
      × Started machine 1048576 2097152 (managed_end (free_end machine.entries 0)) bm_pa p)
    ⊎ ((init machine 1048576 2097152 ≡ none)
        × ((machine.max_pa ≡ 0)
            ⊎ ((free_end machine.entries 0 ≡ 0)
                ⊎ ((bm_pa : ℕ) → ¬ HomeOf machine 1048576 2097152 bm_pa))))
init_cases_example =
    init_cases machine 1048576 2097152 (omega arith, (omega arith, tt))
      (record { ordered = omega arith; low_enough = omega arith })
