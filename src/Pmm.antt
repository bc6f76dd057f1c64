-- ===== src/Pmm.antt =====
-- vm/pmm.c: the physical frame allocator. The static variables are the fields of `Pmm`, an entry
-- point takes the state and returns the new one, and `none` is a failed KASSERT. Every entry point
-- holds pmm_lock throughout, so it is one step. A 64-bit word of the bitmap is the list of its bits,
-- lowest first.
pub mod Bits
pub mod Invariant
pub mod Scan
pub mod Owners
pub mod RoundTrip
pub mod Search
pub mod Span
pub mod Runs
pub mod Init
mod Tests
use style9_os.Base.{
  ℕ, zero, suc, ◌+◌, ◌-◌, ◌*◌, ◌/◌, ◌%◌, ◌^◌, ◌≡◌, Bool, true, false, not, ◌&&◌, ◌||◌, Option, none,
  some, List, [], ltb, leb, ◌==◌, if◌then◌else◌, get_or, set, add64, sub64,
}

pub record Pmm : Type 0 where
  pub bitmap : List (List Bool)
  pub managed_pages : ℕ
  pub managed_pa_end : ℕ
  pub alloc_hint : ℕ
  pub used_count : ℕ
  pub refs : List ℕ
  pub shared_count : ℕ
  pub n_ref : ℕ
  pub n_lastref : ℕ

abbrev pub pa_invalid : ℕ
pa_invalid = 0

abbrev pub page_index : ℕ → ℕ
page_index pa = pa / 4096

-- `idx << PAGE_SHIFT` in 64 bits
abbrev pub pa_from_index : ℕ → ℕ
pa_from_index idx = idx * 4096 % 2 ^ 64

unfoldable pub is_used : Pmm → ℕ → Bool
is_used p idx = get_or (get_or p.bitmap (idx / 64) []) (idx % 64) false

-- bit `idx % 64` of word `idx / 64`, to one or to zero
pub set_bit : List (List Bool) → ℕ → Bool → List (List Bool)
set_bit words idx b = set words (idx / 64) (set (get_or words (idx / 64) []) (idx % 64) b)

unfoldable pub mark_used : Pmm → ℕ → Pmm
mark_used p idx = record p { bitmap = set_bit p.bitmap idx true }

unfoldable pub mark_free : Pmm → ℕ → Pmm
mark_free p idx = record p { bitmap = set_bit p.bitmap idx false }

-- `pmm_refs[idx]`
abbrev pub owners : Pmm → ℕ → ℕ
owners p idx = get_or p.refs idx 0

-- the shared-frame count after an owner count goes from `old` to `v`
abbrev pub shared_after : ℕ → ℕ → ℕ → ℕ
shared_after shared old v =
    if ltb 1 old && leb v 1
    then sub64 shared 1
    else if leb old 1 && ltb 1 v
    then add64 shared 1
    else shared

unfoldable pub ref_set : Pmm → ℕ → ℕ → Pmm
ref_set p idx v = record p {
  refs = set p.refs idx (v % 2 ^ 16);
  shared_count = shared_after p.shared_count (owners p idx) v;
}

-- the body of pmm_alloc_page's loop at a free frame
unfoldable pub take_frame : Pmm → ℕ → Pmm × ℕ
take_frame p idx = (
  record (ref_set (mark_used p idx) idx 1) {
    used_count = add64 p.used_count 1;
    alloc_hint = if leb p.managed_pages (idx + 1) then 0 else idx + 1;
  },
  pa_from_index idx,
)

-- `idx = start + i; if (idx >= pmm_managed_pages) idx -= pmm_managed_pages;`
abbrev pub wrap_index : Pmm → ℕ → ℕ
wrap_index p k = if leb p.managed_pages k then k - p.managed_pages else k

-- the loop of pmm_alloc_page with `rounds` rounds left
pub alloc_from : ℕ → Pmm → ℕ → ℕ → Pmm × ℕ
alloc_from zero p start i = (p, pa_invalid)
alloc_from (suc rounds) p start i =
    let rest = alloc_from rounds p start (i + 1) in
    let idx = wrap_index p (start + i) in if is_used p idx then rest else take_frame p idx

unfoldable pub alloc_page : Pmm → Pmm × ℕ
alloc_page p = alloc_from p.managed_pages p p.alloc_hint 0

-- `while (run < npages && !is_used(start + run)) run++`, with `left` rounds left
unfoldable pub free_run : ℕ → Pmm → ℕ → ℕ
free_run zero p s = 0
free_run (suc left) p s = let rest = free_run left p (s + 1) in if is_used p s then 0 else suc rest

-- The two search loops of pmm_alloc_pages: the first start from `s` on whose `n` frames are free and
-- end at or below `limit`. After a short run the search goes on past the used frame that ended it.
pub find_run : ℕ → Pmm → ℕ → ℕ → ℕ → Option ℕ
find_run zero p n limit s = none
find_run (suc fuel) p n limit s =
    let run = free_run n p s in
    let rest = find_run fuel p n limit (s + run + 1) in
    if leb (add64 s n) limit then (if run == n then some s else rest) else none

-- `for (j = 0; j < npages; j++) { mark_used(start + j); ref_set(start + j, 1); }`
pub take_each : ℕ → Pmm → ℕ → Pmm
take_each zero p s = p
take_each (suc left) p s = take_each left (ref_set (mark_used p s) s 1) (s + 1)

unfoldable pub take_run : Pmm → ℕ → ℕ → Pmm × ℕ
take_run p n s = (
  record (take_each n p s) { used_count = add64 p.used_count n; alloc_hint = add64 s n },
  pa_from_index s,
)

unfoldable pub alloc_pages : Pmm → ℕ → Pmm × ℕ
alloc_pages p n =
    if n == 0
    then (p, pa_invalid)
    else if n == 1
    then alloc_page p
    else elim (find_run (suc p.managed_pages) p n p.managed_pages p.alloc_hint) [
      | some s ↦ take_run p n s
      | none ↦ elim (find_run (suc p.managed_pages) p n p.alloc_hint 0) [
        | some s ↦ take_run p n s
        | none ↦ (p, pa_invalid)
      ]
    ]

-- the last owner out returns the frame
unfoldable pub release_frame : Pmm → ℕ → Pmm
release_frame p idx = record (mark_free p idx) {
  n_lastref = add64 p.n_lastref 1;
  used_count = sub64 p.used_count 1;
  alloc_hint = if ltb idx p.alloc_hint then idx else p.alloc_hint;
}

unfoldable pub free_page : Pmm → ℕ → Option Pmm
free_page p pa =
    let idx = page_index pa in
    let q = ref_set p idx (owners p idx - 1) in
    if not (pa % 4096 == 0) || leb p.managed_pa_end pa
    then none
    else if not (is_used p idx) || owners p idx == 0
    then none
    else if owners q idx == 0
    then some (release_frame q idx)
    else some q

-- the loop of pmm_free_pages with `left` frames left
unfoldable pub free_each : ℕ → Pmm → ℕ → Option Pmm
free_each zero p idx = some p
free_each (suc left) p idx =
    let rest = free_each left (mark_free (ref_set p idx 0) idx) (idx + 1) in
    if leb p.managed_pages idx || not (is_used p idx) || not (owners p idx == 1) then none else rest

unfoldable pub finish_free : ℕ → ℕ → Pmm → Pmm
finish_free n idx p = record p {
  used_count = sub64 p.used_count n;
  n_lastref = add64 p.n_lastref n;
  alloc_hint = if ltb idx p.alloc_hint then idx else p.alloc_hint;
}

unfoldable pub free_pages : Pmm → ℕ → ℕ → Option Pmm
free_pages p pa n = if not (pa % 4096 == 0) then none else elim (free_each n p (page_index pa)) [
  | none ↦ none
  | some q ↦ some (finish_free n (page_index pa) q)
]

unfoldable pub page_ref : Pmm → ℕ → Option Pmm
page_ref p pa =
    let idx = page_index pa in
    if not (pa % 4096 == 0) || leb p.managed_pa_end pa
    then none
    else if not (is_used p idx) || owners p idx == 0
    then none
    else if owners p idx == 0xFFFF
    then none
    else some (record (ref_set p idx (owners p idx + 1)) { n_ref = add64 p.n_ref 1 })

unfoldable pub page_refs : Pmm → ℕ → ℕ
page_refs p pa =
    if not (pa % 4096 == 0) || leb p.managed_pa_end pa then 0 else owners p (page_index pa)

pub shared_pages : Pmm → ℕ
shared_pages p = p.shared_count

pub total_pages : Pmm → ℕ
total_pages p = p.managed_pages

unfoldable pub free_pages_count : Pmm → ℕ
free_pages_count p = sub64 p.managed_pages p.used_count

pub used_pages : Pmm → ℕ
used_pages p = p.used_count
