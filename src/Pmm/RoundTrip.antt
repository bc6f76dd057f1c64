-- ===== src/Pmm/RoundTrip.antt =====
-- A frame taken and given back, and an owner added and dropped, leave every frame as it was.
use style9_os.Base.{
  ℕ, ◌+◌, ◌≡◌, refl, sym, subst, subst₂, ap, ◌∙◌, ◌≢◌, inl, inr, Bool, true, some, arith, ltb, ◌==◌,
  bit_value,
}
use mathlib.Core.Option.{some-injective}
use style9_os.Pmm.{Pmm, is_used, owners, alloc_page, free_page, page_ref, page_index, pa_invalid}
use style9_os.Pmm.Invariant.{IsValid, Update}
use style9_os.Pmm.Scan.{Allocated, taken, exhausted, alloc_page-Allocated}
use style9_os.Pmm.Owners.{IsOwned, free_page-Dropped, page_ref_cases, owned-is_used}

pub record SameFrames (p q : Pmm) : Type 0 where
  pub same_used : (i : ℕ) → is_used q i ≡ is_used p i
  pub same_owners : (i : ℕ) → owners q i ≡ owners p i
  pub same_count : q.used_count ≡ p.used_count

undo-SameFrames :
    (p q r : Pmm) (idx : ℕ) (u : Bool) (v : ℕ)
    → Update p q idx u v
    → Update q r idx (is_used p idx) (owners p idx)
    → r.used_count ≡ p.used_count
    → SameFrames p r
undo-SameFrames p q r idx u v there back n = record {
  same_used = λ i. ground (arith, there.used_at i, back.used_at i, same_used i);
  same_owners = λ i. ground (arith, there.owners_at i, back.owners_at i, same_owners i);
  same_count = n;
}
  where
    same_used : (i : ℕ) → i ≡ idx → is_used p i ≡ is_used p idx
    same_used i e = ap (is_used p) e

    same_owners : (i : ℕ) → i ≡ idx → owners p i ≡ owners p idx
    same_owners i e = ap (owners p) e

-- Dropping the owner that a step added undoes the step.
drop-SameFrames :
    (p q : Pmm) (pa : ℕ) (v : ℕ)
    → Update p q (page_index pa) true v
    → v ≡ owners p (page_index pa) + 1
    → is_used p (page_index pa) ≡ ltb 1 v
    → IsValid q
    → IsOwned q pa
    → q.used_count ≡ p.used_count + bit_value (v == 1)
    → (r : Pmm) × (free_page q pa ≡ some r) × SameFrames p r
drop-SameFrames p q pa v up e u valid o n =
    let (r, freed, d) = free_page-Dropped q pa valid o in
    let now : owners q (page_index pa) ≡ v = ground (arith, up.owners_at (page_index pa)) in
    (
      r,
      freed,
      undo-SameFrames p q r (page_index pa) true v up
          (subst₂ (λ b k. Update q r (page_index pa) b k) (ground (arith, now, u))
            (ground (arith, now)) d.update)
          (ground (arith, d.used, now)),
    )

-- In a valid state, a frame that pmm_alloc_page hands out can be freed at once, and then every frame
-- is used and owned as before the allocation.
pub free_page-alloc_page :
    (p : Pmm)
    → IsValid p
    → (alloc_page p).1 ≢ pa_invalid
    → (r : Pmm) × (free_page (alloc_page p).0 (alloc_page p).1 ≡ some r) × SameFrames p r
free_page-alloc_page p v some_frame = go (alloc_page p) (alloc_page-Allocated p v) some_frame
  where
    go :
        (a : Pmm × ℕ)
        → Allocated p a
        → a.1 ≢ pa_invalid
        → (r : Pmm) × (free_page a.0 a.1 ≡ some r) × SameFrames p r
    go a (exhausted e all) ne = absurd (ne (ap (λ t. t.1) e))
    go a (taken idx inside pa ne' free up valid n) ne =
        let at : page_index a.1 ≡ idx = omega arith in
        let up' = subst (λ k. Update p a.0 k true 1) (sym at) up in
        drop-SameFrames p a.0 a.1 1 up' (ground (arith, at, v.tracked.free_unowned idx free))
          (ap (is_used p) at ∙ free) valid
          (record {
            aligned = omega arith;
            managed = omega (arith, up.shaped.pa_end, up.same_pages);
            owned = ground (arith, up'.owners_at (page_index a.1));
          })
          (omega (arith, n))

-- In a valid state, an owner that pmm_page_ref adds can be dropped at once, and then every frame is
-- used and owned as before.
pub free_page-page_ref :
    (p : Pmm) (pa : ℕ)
    → IsValid p
    → {q : Pmm} → page_ref p pa ≡ some q
    → (r : Pmm) × (free_page q pa ≡ some r) × SameFrames p r
free_page-page_ref p pa v {q} h = elim (page_ref_cases p pa v) [
  | inr (why, e) ↦ cc (sym e ∙ h)
  | inl (o, small, (q', e, s)) ↦
      let same : q' ≡ q = some-injective q' q (sym e ∙ h) in
      subst (λ q. (r : Pmm) × (free_page q pa ≡ some r) × SameFrames p r) same
        (drop-SameFrames p q' pa _ s.update refl
          (ground (arith, o.owned, owned-is_used p (page_index pa) v.tracked o.owned)) s.valid
          (record {
            aligned = o.aligned;
            managed = omega (
              arith, o.managed, v.tracked.shaped.pa_end, s.update.shaped.pa_end,
              s.update.same_pages,
            );
            owned = ground (arith, s.update.owners_at (page_index pa));
          })
          (ground (arith, s.used, o.owned)))
]
