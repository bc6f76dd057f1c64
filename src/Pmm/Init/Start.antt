-- ===== src/Pmm/Init/Start.antt =====
-- pmm_init as a whole: where it puts the bookkeeping, the state it leaves, and when it panics.
use style9_os.Base.{
  ℕ, ◌+◌, ◌%◌, ◌^◌, ◌≤◌, ◌<◌, ◌≡◌, ◌⊎◌, inl, inr, none, some, List, [], ◌∷◌, ◌==◌, Bool-cases,
  Option-cases, arith, All,
}
use style9_os.Memmap.{Entry, Memmap}
use style9_os.Pmm.{Pmm}
use style9_os.Pmm.Init.{free_end, carve_bitmap_storage, managed_end, carve_bytes, reserve, init}
use style9_os.Pmm.Init.Home.{HomeIn, carve_bitmap_storage-HomeIn, carve_bitmap_storage-none}
use style9_os.Pmm.Init.Started.{IsImage, Started, carve_bytes_some, reserve-Started}

-- the homes that the bookkeeping has in a map, given where the managed memory ends
abbrev pub HomeOf : Memmap → ℕ → ℕ → ℕ → Type 0
HomeOf m kernel_start kernel_end bm_pa =
    let pa_end = managed_end (free_end m.entries 0) in
    HomeIn pa_end kernel_start kernel_end (carve_bytes pa_end) m.entries bm_pa

managed_end_fits :
    (top : ℕ)
    → 0 < top
    → (managed_end top % 4096 ≡ 0) × (managed_end top ≤ 2 ^ 30) × (4096 ≤ managed_end top)
unfolding managed_end
managed_end_fits top h = (ground arith, ground arith, ground arith)

HomeIn-managed :
    (pa_end ks ke bytes : ℕ) (es : List Entry) (a : ℕ)
    → HomeIn pa_end ks ke bytes es a
    → a + bytes ≤ pa_end
HomeIn-managed pa_end ks ke bytes [] a x = absurd x
HomeIn-managed pa_end ks ke bytes (e ∷ es) a (inl here) = here.managed
HomeIn-managed pa_end ks ke bytes (e ∷ es) a (inr there) =
    HomeIn-managed pa_end ks ke bytes es a there

-- With a memory map whose bases can be rounded up and a kernel image below the top of the address space,
-- pmm_init finds a home for its bookkeeping and leaves a valid state in which every free frame lies in a
-- FREE region, above the first megabyte and clear of the kernel image and of that home; or it panics,
-- because the map is empty, has no free memory, or has no home. A home is room for the bookkeeping in
-- the whole pages of a FREE region, above the first megabyte and below the managed end, which either
-- starts past the kernel image or is in a region that ends below it: free memory below the image in
-- the image's own region is none.
pub init_cases :
    (m : Memmap) (kernel_start kernel_end : ℕ)
    → All (λ e. e.base + 4095 < 2 ^ 64) m.entries
    → IsImage kernel_start kernel_end
    → ((p : Pmm) × (bm_pa : ℕ) × (init m kernel_start kernel_end ≡ some p)
        × HomeOf m kernel_start kernel_end bm_pa
        × Started m kernel_start kernel_end (managed_end (free_end m.entries 0)) bm_pa p)
      ⊎ ((init m kernel_start kernel_end ≡ none)
          × ((m.max_pa ≡ 0)
              ⊎ ((free_end m.entries 0 ≡ 0)
                  ⊎ ((bm_pa : ℕ) → ¬ HomeOf m kernel_start kernel_end bm_pa))))
unfolding init
init_cases m ks ke small image = elim (Bool-cases (m.max_pa == 0)) [
  | inl empty ↦ inr (simp empty, inl (ground (arith, empty)))
  | inr some_map ↦ elim (Bool-cases (top == 0)) [
    | inl dry ↦ inr (simp (some_map, dry), inr (inl (ground (arith, dry))))
    | inr wet ↦
        let fits = managed_end_fits top (ground (arith, wet)) in
        let bytes = carve_bytes_some (managed_end top) fits.2 in
        elim (Option-cases (
          carve_bitmap_storage (managed_end top) ks ke m.entries (carve_bytes (managed_end top)))) [
            | inl full ↦ inr (
              simp (some_map, wet, full),
              inr (
                  inr (λ bm_pa.
                    carve_bitmap_storage-none (managed_end top) ks ke _ bytes image.low_enough
                      m.entries bm_pa small full)),
            )
            | inr (bm_pa, found) ↦
                let home =
                  carve_bitmap_storage-HomeIn (managed_end top) ks ke _ bytes image.low_enough
                    m.entries bm_pa small found in
                inl (
                  reserve m ks ke (managed_end top) bm_pa,
                  bm_pa,
                  simp (some_map, wet, found),
                  home,
                  reserve-Started m ks ke (managed_end top) bm_pa small image fits.0 fits.1 fits.2
                      (HomeIn-managed _ ks ke _ m.entries bm_pa home),
                )
          ]
  ]
]
  where
    top : ℕ
    top = free_end m.entries 0
