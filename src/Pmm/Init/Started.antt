-- ===== src/Pmm/Init/Started.antt =====
-- The state that pmm_init leaves once it has a place for its bookkeeping: a valid one, which hands out
-- RAM only and keeps the kernel, the low megabyte and the bookkeeping.
use style9_os.Base.{
  ℕ, ◌+◌, ◌*◌, ◌/◌, ◌%◌, ◌^◌, ◌≤◌, ◌<◌, ◌≡◌, refl, sym, ap, ◌∙◌, ◌⊎◌, inl, inr, true, false, ◌||◌,
  [], length, replicate, ltb, leb, Bool-cases, arith, count_all, count_none, get_or_past, sub64,
  round_up, round_down, All, length-replicate, get_or-replicate,
}
use style9_os.Memmap.{Memmap}
use style9_os.Pmm.{Pmm, is_used, owners}
use style9_os.Pmm.Invariant.{IsValid}
use style9_os.Pmm.Init.{mark_range_used, free_regions, all_used, carve_bytes, reserve}
use style9_os.Pmm.Init.Ranges.{IsOpening}
use style9_os.Pmm.Init.Regions.{
  InRam, Reserved, mark_range_used-Reserved, Opened, free_regions-Opened,
}

all_used-used : (pa_end i : ℕ) → i < pa_end / 4096 → is_used (all_used pa_end) i ≡ true
unfolding is_used all_used
all_used-used pa_end i h =
    rw (get_or-replicate ((pa_end / 4096 + 63) / 64) (i / 64) (replicate 64 true) [] (omega arith))
      (get_or-replicate 64 (i % 64) true false (omega arith))

all_used-unowned : (pa_end i : ℕ) → owners (all_used pa_end) i ≡ 0
unfolding all_used
all_used-unowned pa_end i = elim (Bool-cases (ltb i (pa_end / 4096))) [
  | inl h ↦ get_or-replicate (pa_end / 4096) i 0 0 (ground (arith, h))
  | inr h ↦
      get_or_past (replicate (pa_end / 4096) 0) i 0
        (ground (arith, h, length-replicate {A = ℕ} (pa_end / 4096) 0))
]

all_used-IsOpening :
    (pa_end : ℕ) → pa_end % 4096 ≡ 0 → pa_end ≤ 2 ^ 30 → IsOpening (all_used pa_end)
unfolding all_used
all_used-IsOpening pa_end a small = record {
  shaped = record {
    words = λ w h. ap length (
        get_or-replicate words w (replicate 64 true) []
          (omega (arith, h, length-replicate words (replicate 64 true))));
    covered = omega (arith, length-replicate words (replicate 64 true));
    counts = length-replicate (pa_end / 4096) 0;
    pa_end = omega arith;
    small = omega arith;
  };
  unowned = all_used-unowned pa_end;
  none_shared = refl;
  used_counted = sym (count_all _ (pa_end / 4096) (all_used-used pa_end));
  hint = refl;
}
  where
    words : ℕ
    words = (pa_end / 4096 + 63) / 64

opening-IsValid : (p : Pmm) → IsOpening p → is_used p 0 ≡ true → IsValid p
opening-IsValid p o z = record {
  tracked = record {
    shaped = o.shaped;
    shared_counted =
        o.none_shared ∙ sym (count_none _ p.managed_pages (λ i l. ground (arith, o.unowned i)));
    free_unowned = λ i e. o.unowned i;
    owners_small = λ i. omega (arith, o.unowned i);
    zero_used = z;
    zero_unowned = o.unowned 0;
  };
  hint_in = omega (arith, o.hint);
  used_counted = o.used_counted;
}

-- where the kernel image can lie
pub record IsImage (kernel_start kernel_end : ℕ) : Type 0 where
  pub ordered : kernel_start ≤ kernel_end
  pub low_enough : kernel_end + 2 ^ 14 < 2 ^ 64

-- The state is valid, and every managed frame that it has free lies in a FREE region, above the first
-- megabyte and clear of the kernel image and of the bookkeeping at `bm_pa`.
pub record Started (m : Memmap) (kernel_start kernel_end pa_end bm_pa : ℕ) (p : Pmm) : Type 0 where
  pub valid : IsValid p
  pub ram : (i : ℕ) → i < p.managed_pages → is_used p i ≡ false → InRam m.entries i
  pub above_low : (i : ℕ) → i < p.managed_pages → is_used p i ≡ false → 256 ≤ i
  pub clear :
      (i : ℕ)
      → i < p.managed_pages
      → is_used p i ≡ false
      → (i * 4096 + 4096 ≤ kernel_start) ⊎ (kernel_end ≤ i * 4096)
  pub kept_home :
      (i : ℕ)
      → i < p.managed_pages
      → is_used p i ≡ false
      → (i * 4096 + 4096 ≤ bm_pa) ⊎ (bm_pa + carve_bytes pa_end ≤ i * 4096)
  pub managed : p.managed_pages ≡ pa_end / 4096

pub carve_bytes_some : (pa_end : ℕ) → 4096 ≤ pa_end → 0 < carve_bytes pa_end
unfolding carve_bytes
carve_bytes_some pa_end h = omega arith

pub reserve-Started :
    (m : Memmap) (kernel_start kernel_end pa_end bm_pa : ℕ)
    → All (λ e. e.base + 4095 < 2 ^ 64) m.entries
    → IsImage kernel_start kernel_end
    → pa_end % 4096 ≡ 0
    → pa_end ≤ 2 ^ 30
    → 4096 ≤ pa_end
    → bm_pa + carve_bytes pa_end ≤ pa_end
    → Started m kernel_start kernel_end pa_end bm_pa
        (reserve m kernel_start kernel_end pa_end bm_pa)
unfolding reserve
reserve-Started m ks ke pa_end bm_pa small image a cap some_page home = record {
  valid = opening-IsValid _ book.opening zero_used;
  ram = λ i h u. elim (opened.ram i (low.kept i (img.kept i (book.kept i u)))) [
    | inr r ↦ r
    | inl free ↦ absurd (ground (arith, free, all_used-used pa_end i (omega (arith, h, all_pages))))
  ];
  above_low = λ i h u. elim (Bool-cases (leb 256 i)) [
    | inl up ↦ ground (arith, up)
    | inr below ↦ absurd (
        ground (
          arith,
          low.covered i (omega arith) (omega arith) (omega (arith, h, all_pages, pages, low.pages))
              (omega arith) (ground (arith, below)),
          img.kept i (book.kept i u),
        ))
  ];
  clear = λ i h u. elim (Bool-cases (leb (i * 4096 + 4096) ks || leb ke (i * 4096))) [
    | inl out ↦ ground (arith, out)
    | inr meets ↦ absurd (
        ground (
          arith,
          img.covered i (ground (arith, meets, image.ordered, image.low_enough))
              (ground (arith, image.ordered, image.low_enough)) (omega (arith, h, all_pages, pages))
              (ground (arith, meets)) (ground (arith, meets, image.ordered, image.low_enough)),
          book.kept i u,
        ))
  ];
  kept_home = λ i h u.
      elim (Bool-cases
        (leb (i * 4096 + 4096) bm_pa || leb (bm_pa + carve_bytes pa_end) (i * 4096))) [
          | inl out ↦ ground (arith, out)
          | inr meets ↦
              let some_bytes = carve_bytes_some pa_end some_page in
              absurd (
                ground (
                  arith,
                  book.covered i some_bytes (omega (arith, home, cap))
                      (omega (arith, h, all_pages, pages, low.pages, img.pages))
                      (ground (arith, meets)) (ground (arith, meets)),
                  u,
                ))
        ];
  managed = all_pages;
}
  where
    first : Pmm
    first = all_used pa_end

    opened : Opened first (free_regions first m.entries) m.entries
    opened = free_regions-Opened m.entries first small (all_used-IsOpening pa_end a cap)

    p1 : Pmm
    p1 = free_regions first m.entries

    low : Reserved p1 (mark_range_used p1 0 1048576) 0 1048576
    low = mark_range_used-Reserved p1 0 1048576 opened.opening

    p2 : Pmm
    p2 = mark_range_used p1 0 1048576

    len : ℕ
    len = sub64 (round_up ke) (round_down ks)

    img : Reserved p2 (mark_range_used p2 (round_down ks) len) (round_down ks) len
    img = mark_range_used-Reserved p2 (round_down ks) len low.opening

    p3 : Pmm
    p3 = mark_range_used p2 (round_down ks) len

    book : Reserved p3 (mark_range_used p3 bm_pa (carve_bytes pa_end)) bm_pa (carve_bytes pa_end)
    book = mark_range_used-Reserved p3 bm_pa (carve_bytes pa_end) img.opening

    pages : p2.managed_pages ≡ pa_end / 4096
    pages = low.pages ∙ (opened.pages ∙ (unfold all_used in refl))

    all_pages : (mark_range_used p3 bm_pa (carve_bytes pa_end)).managed_pages ≡ pa_end / 4096
    all_pages = book.pages ∙ (img.pages ∙ pages)

    zero_used : is_used (mark_range_used p3 bm_pa (carve_bytes pa_end)) 0 ≡ true
    zero_used = elim (Bool-cases (is_used (mark_range_used p3 bm_pa (carve_bytes pa_end)) 0)) [
      | inl u ↦ u
      | inr u ↦ absurd (
          ground (
            arith,
            low.covered 0 (omega arith) (omega arith) (omega (arith, pages, low.pages))
                (omega arith) (omega arith),
            img.kept 0 (book.kept 0 u),
          ))
    ]
