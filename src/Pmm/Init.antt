-- ===== src/Pmm/Init.antt =====
-- pmm_init: the allocator's first state, from the memory map and the kernel image's bounds. A loop over
-- the pages of [pa, end) takes one step for each page that starts in it.
pub mod Ranges
pub mod Regions
pub mod Home
pub mod Started
pub mod Start
use style9_os.Base.{
  ℕ, zero, suc, ◌+◌, ◌-◌, ◌*◌, ◌/◌, ◌%◌, ◌^◌, ◌≡◌, Bool, true, false, not, ◌&&◌, ◌||◌, Option, none,
  some, List, [], ◌∷◌, ltb, leb, ◌==◌, if◌then◌else◌, get_or, set, add64, sub64, replicate,
  round_up, round_down,
}
use style9_os.Memmap.{Entry, Memmap, is_free}
use style9_os.Pmm.{Pmm, is_used, mark_used, mark_free, page_index}

-- PMM_HARD_CAP_BYTES: 1 GiB
abbrev pub hard_cap : ℕ
hard_cap = 2 ^ 30

-- the number of steps of `for (pa = start; pa < end; pa += PAGE_SIZE)`
abbrev pub page_steps : ℕ → ℕ → ℕ
page_steps start end = (end - start + 4095) / 4096

unfoldable pub mark_step : Pmm → ℕ → Pmm
mark_step p idx =
    let q = mark_used p idx in
    if is_used p idx then p else record q { used_count = add64 p.used_count 1 }

unfoldable pub mark_pages : ℕ → Pmm → ℕ → Pmm
mark_pages zero p idx = p
mark_pages (suc n) p idx = mark_pages n (mark_step p idx) (suc idx)

unfoldable pub mark_range_used : Pmm → ℕ → ℕ → Pmm
mark_range_used p base len =
    let start = round_down base in
    let end = round_up (add64 base len) in
    let stop = if ltb p.managed_pa_end end then p.managed_pa_end else end in
    if len == 0
    then p
    else if leb p.managed_pa_end start
    then p
    else mark_pages (page_steps start stop) p (page_index start)

unfoldable pub free_step : Pmm → ℕ → Pmm
free_step p idx =
    let q = mark_free p idx in
    if is_used p idx then record q { used_count = sub64 p.used_count 1 } else p

unfoldable pub free_steps : ℕ → Pmm → ℕ → Pmm
free_steps zero p idx = p
free_steps (suc n) p idx = free_steps n (free_step p idx) (suc idx)

-- the pages of one FREE region
unfoldable pub free_region : Pmm → Entry → Pmm
free_region p e =
    let base = round_up e.base in
    let end0 = round_down (add64 e.base e.len) in
    let end = if ltb p.managed_pa_end end0 then p.managed_pa_end else end0 in
    if leb end base then p else free_steps (page_steps base end) p (page_index base)

unfoldable pub free_regions : Pmm → List Entry → Pmm
free_regions p [] = p
free_regions p (e ∷ es) =
    if is_free e.kind then free_regions (free_region p e) es else free_regions p es

-- the end of the highest FREE region
unfoldable pub free_end : List Entry → ℕ → ℕ
free_end [] top = top
free_end (e ∷ es) top =
    let end = add64 e.base e.len in
    if not (is_free e.kind)
    then free_end es top
    else if ltb top end
    then free_end es end
    else free_end es top

-- carve_bitmap_storage; `none` is PA_INVALID
unfoldable pub carve_bitmap_storage : ℕ → ℕ → ℕ → List Entry → ℕ → Option ℕ
carve_bitmap_storage pa_end kernel_start kernel_end [] bytes = none
carve_bitmap_storage pa_end kernel_start kernel_end (e ∷ es) bytes =
    let kstart = round_down kernel_start in
    let kend = round_up kernel_end in
    let base0 = round_up e.base in
    let end0 = round_down (add64 e.base e.len) in
    let base1 = if ltb base0 1048576 then 1048576 else base0 in
    let base = if ltb base1 kend && ltb kstart end0 then kend else base1 in
    let end = if ltb pa_end end0 then pa_end else end0 in
    let rest = carve_bitmap_storage pa_end kernel_start kernel_end es bytes in
    if not (is_free e.kind)
    then rest
    else if leb end base
    then rest
    else if ltb (end - base) bytes
    then rest
    else some base

-- all pages used and none owned
unfoldable pub all_used : ℕ → Pmm
all_used pa_end = record {
  bitmap = replicate ((pa_end / 4096 + 63) / 64) (replicate 64 true);
  managed_pages = pa_end / 4096;
  managed_pa_end = pa_end;
  alloc_hint = 0;
  used_count = pa_end / 4096;
  refs = replicate (pa_end / 4096) 0;
  shared_count = 0;
  n_ref = 0;
  n_lastref = 0;
}

-- pmm_managed_pa_end for a highest free end
unfoldable pub managed_end : ℕ → ℕ
managed_end top = round_up (if ltb hard_cap top then hard_cap else top)

-- the bytes of the bitmap up to a page boundary and of the owner counts
unfoldable pub carve_bytes : ℕ → ℕ
carve_bytes pa_end = round_up ((pa_end / 4096 + 63) / 64 * 8) + pa_end / 4096 * 2

-- phase 2, with the bookkeeping at `bm_pa`
unfoldable pub reserve : Memmap → ℕ → ℕ → ℕ → ℕ → Pmm
reserve m kernel_start kernel_end pa_end bm_pa =
    let kstart = round_down kernel_start in
    let kend = round_up kernel_end in
    let opened = free_regions (all_used pa_end) m.entries in
    let low = mark_range_used opened 0 1048576 in
    let image = mark_range_used low kstart (sub64 kend kstart) in
    mark_range_used image bm_pa (carve_bytes pa_end)

unfoldable pub init : Memmap → ℕ → ℕ → Option Pmm
init m kernel_start kernel_end =
    let top = free_end m.entries 0 in
    let pa_end = managed_end top in
    if m.max_pa == 0
    then none
    else if top == 0
    then none
    else elim (carve_bitmap_storage pa_end kernel_start kernel_end m.entries (carve_bytes pa_end)) [
      | none ↦ none
      | some bm_pa ↦ some (reserve m kernel_start kernel_end pa_end bm_pa)
    ]

-- pmm_reserve
unfoldable pub reserve_frames : Pmm → ℕ → ℕ → Pmm
reserve_frames p base len = mark_range_used p base len
