-- ===== src/Pmm/Scan.antt =====
-- pmm_alloc_page: what the search finds, and what it leaves behind.
use style9_os.Base.{
  ℕ, zero, suc, ◌+◌, ◌-◌, ◌*◌, ◌≤◌, ◌<◌, ◌≡◌, refl, ap, ◌∙◌, ◌≢◌, inl, inr, true, false, Bool-cases,
  arith, ℕ_discrete, dec_le, count-le,
}
use style9_os.Pmm.{
  Pmm, is_used, mark_used, ref_set, take_frame, wrap_index, alloc_from, alloc_page, pa_invalid,
}
use style9_os.Pmm.Invariant.{
  IsValid, Update, mark_used-ref_set-Update, count-is_used, Update-IsTracked, free-ne-zero,
  with_cursor-Update,
}

-- What pmm_alloc_page answers: the address of a frame that was free and is now used with one owner,
-- all other frames as they were; or PA_INVALID, with no frame free and nothing changed.
pub data Allocated (p : Pmm) (r : Pmm × ℕ) : Type 0 where
  taken :
      (idx : ℕ)
      → idx < p.managed_pages
      → r.1 ≡ idx * 4096
      → r.1 ≢ pa_invalid
      → is_used p idx ≡ false
      → Update p r.0 idx true 1
      → IsValid r.0
      → r.0.used_count ≡ p.used_count + 1
      → Allocated p r
  exhausted :
      r ≡ (p, pa_invalid) → ((i : ℕ) → i < p.managed_pages → is_used p i ≡ true) → Allocated p r

take_frame-Update :
    (p : Pmm) (idx : ℕ)
    → IsValid p
    → idx < p.managed_pages
    → Update p (take_frame p idx).0 idx true 1
unfolding take_frame
take_frame-Update p idx v inside =
    with_cursor-Update p (ref_set (mark_used p idx) idx 1) _ _ _ _ idx true 1
      (mark_used-ref_set-Update p idx 1 inside v.tracked.shaped (omega arith))

take_frame-cursor :
    (p : Pmm) (idx : ℕ)
    → IsValid p
    → idx < p.managed_pages
    → ((take_frame p idx).0.used_count ≡ p.used_count + 1)
      × ((take_frame p idx).0.alloc_hint ≤ p.managed_pages)
      × ((take_frame p idx).1 ≡ idx * 4096)
unfolding take_frame
take_frame-cursor p idx v inside =
    ground (arith, v.used_counted, v.tracked.shaped.small, count-le (is_used p) p.managed_pages)

take_frame-Allocated :
    (p : Pmm) (idx : ℕ)
    → IsValid p
    → idx < p.managed_pages
    → is_used p idx ≡ false
    → Allocated p (take_frame p idx)
take_frame-Allocated p idx v inside e =
    let up = take_frame-Update p idx v inside in
    let c = take_frame-cursor p idx v inside in
    let ne = free-ne-zero p idx v.tracked e in
    taken idx inside c.2 (omega (arith, c.2, ne)) e up
      (record {
        tracked = Update-IsTracked up v.tracked inside ne (omega arith) (λ h. cc);
        hint_in = omega (arith, c.1, up.same_pages);
        used_counted = ground (arith, c.0, count-is_used up inside, v.used_counted, e);
      })
      c.0

-- The frames that the rounds already made have looked at are used.
abbrev Passed : Pmm → ℕ → Type 0
Passed p i = (j : ℕ) → j < i → is_used p (wrap_index p (p.alloc_hint + j)) ≡ true

Passed-suc :
    (p : Pmm) (i : ℕ)
    → Passed p i
    → is_used p (wrap_index p (p.alloc_hint + i)) ≡ true
    → Passed p (i + 1)
Passed-suc p i h e j lt = elim (ℕ_discrete j i) [
  | yes same ↦ ap (λ k. is_used p (wrap_index p (p.alloc_hint + k))) same ∙ e
  | no other ↦ h j (omega arith)
]

-- After a full circle every managed frame has been looked at.
Passed-all :
    (p : Pmm)
    → p.alloc_hint ≤ p.managed_pages
    → Passed p p.managed_pages
    → (i : ℕ) → i < p.managed_pages
    → is_used p i ≡ true
Passed-all p hint h i lt = elim (dec_le p.alloc_hint i) [
  | yes above ↦ ap (is_used p) (ground arith) ∙ h (i - p.alloc_hint) (omega arith)
  | no below ↦ ap (is_used p) (ground arith) ∙ h (p.managed_pages - p.alloc_hint + i) (omega arith)
]

alloc_from-Allocated :
    (rounds : ℕ) (p : Pmm) (i : ℕ)
    → IsValid p
    → i + rounds ≡ p.managed_pages
    → Passed p i
    → Allocated p (alloc_from rounds p p.alloc_hint i)
unfolding alloc_from
alloc_from-Allocated zero p i v e passed =
    exhausted refl (Passed-all p v.hint_in (λ j lt. passed j (omega arith)))
alloc_from-Allocated (suc rounds) p i v e passed =
    elim (Bool-cases (is_used p (wrap_index p (p.alloc_hint + i)))) [
      | inl used ↦
          rw used
            (alloc_from-Allocated rounds p (i + 1) v (omega arith) (Passed-suc p i passed used))
      | inr free ↦ rw free (take_frame-Allocated p _ v (ground (arith, v.hint_in)) free)
    ]

-- In a valid state, pmm_alloc_page hands out a free frame and keeps the state valid, or no managed
-- frame is free and it answers PA_INVALID and changes nothing.
pub alloc_page-Allocated : (p : Pmm) → IsValid p → Allocated p (alloc_page p)
unfolding alloc_page
alloc_page-Allocated p v =
    alloc_from-Allocated p.managed_pages p 0 v (omega arith) (λ j lt. absurd (omega arith))
