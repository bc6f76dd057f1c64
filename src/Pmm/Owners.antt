-- ===== src/Pmm/Owners.antt =====
-- pmm_free_page and pmm_page_ref: one owner fewer, one owner more.
use style9_os.Base.{
  ℕ, ◌+◌, ◌-◌, ◌%◌, ◌^◌, ◌≤◌, ◌<◌, ◌≡◌, refl, sym, subst, ◌≢◌, ◌⊎◌, inl, inr, Bool, true, false,
  not, ◌||◌, none, some, leb, ltb, ◌==◌, if◌then◌else◌, Bool-cases, arith, ℕ_discrete, count_pos,
  count-le, bit_value, add64,
}
use style9_os.Pmm.{
  Pmm, is_used, owners, mark_free, ref_set, release_frame, free_page, page_ref, page_index,
}
use style9_os.Pmm.Invariant.{
  IsTracked, IsValid, Update, ref_set-mark_free-Update, ref_set-Update, owners-ref_set,
  count-is_used, Update-IsTracked, owned-ne-zero, with_cursor-Update,
}

-- The address names an owned frame: aligned, managed, and with at least one owner.
pub record IsOwned (p : Pmm) (pa : ℕ) : Type 0 where
  pub aligned : pa % 4096 ≡ 0
  pub managed : pa < p.managed_pa_end
  pub owned : owners p (page_index pa) ≢ 0

pub owned-is_used : (p : Pmm) (i : ℕ) → IsTracked p → owners p i ≢ 0 → is_used p i ≡ true
owned-is_used p i t h = elim (Bool-cases (is_used p i)) [
  | inl e ↦ e
  | inr e ↦ absurd (h (t.free_unowned i e))
]

-- What dropping an owner leaves: a frame with owners left stays used; the last owner's frame becomes
-- free, and the next search starts at or below it.
pub record Dropped (p q : Pmm) (idx : ℕ) : Type 0 where
  pub update : Update p q idx (ltb 1 (owners p idx)) (owners p idx - 1)
  pub valid : IsValid q
  pub used : q.used_count + bit_value (owners p idx == 1) ≡ p.used_count
  pub cursor : owners p idx ≡ 1 → q.alloc_hint ≤ idx

-- the state after an owner is dropped
pub drop_owner : Pmm → ℕ → Pmm
drop_owner p idx =
    let q = ref_set p idx (owners p idx - 1) in if owners q idx == 0 then release_frame q idx else q

module _ (p : Pmm) (idx : ℕ) (v : IsValid p) (inside : idx < p.managed_pages)
    (o : owners p idx ≢ 0) where
  dropped : Pmm
  dropped = ref_set p idx (owners p idx - 1)

  less : owners p idx - 1 < 2 ^ 16
  less = omega (arith, v.tracked.owners_small idx)

  owners-dropped : owners dropped idx ≡ owners p idx - 1
  unfolding dropped
  owners-dropped =
      ground (arith, owners-ref_set p idx inside v.tracked.shaped (owners p idx - 1) idx less)

  last-Update : owners p idx ≡ 1 → Update p (release_frame dropped idx) idx false 0
  unfolding release_frame dropped
  last-Update one =
      with_cursor-Update p (mark_free (ref_set p idx (owners p idx - 1)) idx) _ _ _ _ idx false 0 (
        subst (λ k. Update p (mark_free (ref_set p idx k) idx) idx false 0) (omega arith)
          (ref_set-mark_free-Update p idx 0 inside v.tracked.shaped (omega arith)))

  last-cursor :
      owners p idx ≡ 1
      → ((release_frame dropped idx).used_count + 1 ≡ p.used_count)
        × ((release_frame dropped idx).alloc_hint ≤ idx)
        × ((release_frame dropped idx).alloc_hint ≤ p.managed_pages)
  unfolding release_frame dropped mark_free ref_set
  last-cursor one = ground (
    arith,
    v.used_counted,
    v.hint_in,
    v.tracked.shaped.small,
    count-le (is_used p) p.managed_pages,
    count_pos (is_used p) idx p.managed_pages inside (owned-is_used p idx v.tracked o),
  )

  release_frame-Dropped : owners p idx ≡ 1 → Dropped p (release_frame dropped idx) idx
  release_frame-Dropped one =
      let up = last-Update one in
      let c = last-cursor one in
      record {
        update =
            subst (λ k. Update p (release_frame dropped idx) idx (ltb 1 k) (k - 1)) (sym one) up;
        valid = record {
          tracked =
              Update-IsTracked up v.tracked inside (owned-ne-zero p idx v.tracked o) (omega arith)
                (λ h. refl);
          hint_in = omega (arith, c.2, up.same_pages);
          used_counted = ground (
            arith,
            c.0,
            count-is_used up inside,
            v.used_counted,
            owned-is_used p idx v.tracked o,
          );
        };
        used = ground (arith, c.0);
        cursor = λ h. c.1;
      }

  same_used : dropped.used_count ≡ p.used_count
  unfolding dropped ref_set
  same_used = refl

  owners-zero : owners p idx ≡ 1 → (owners dropped idx == 0) ≡ true
  owners-zero one = ground (arith, owners-dropped)

  owners-left : owners p idx ≢ 1 → (owners dropped idx == 0) ≡ false
  owners-left many = ground (arith, owners-dropped)

  ref_set-Dropped : 1 < owners p idx → Dropped p dropped idx
  unfolding dropped
  ref_set-Dropped many =
      let up =
        ref_set-Update p idx (owners p idx - 1) inside v.tracked.shaped less
          (owned-is_used p idx v.tracked o) in
      record {
        update = subst (λ b. Update p dropped idx b (owners p idx - 1)) (ground arith) up;
        valid = record {
          tracked =
              Update-IsTracked up v.tracked inside (owned-ne-zero p idx v.tracked o) less (λ h. cc);
          hint_in = unfold ref_set in v.hint_in;
          used_counted = ground (
            arith,
            count-is_used up inside,
            v.used_counted,
            owned-is_used p idx v.tracked o,
            same_used,
          );
        };
        used = unfold ref_set in ground arith;
        cursor = λ h. absurd (omega arith);
      }

  pub drop_owner-Dropped : Dropped p (drop_owner p idx) idx
  unfolding drop_owner dropped
  drop_owner-Dropped = elim (ℕ_discrete (owners p idx) 1) [
    | yes one ↦ rw (owners-zero one) (release_frame-Dropped one)
    | no many ↦ rw (owners-left many) (ref_set-Dropped (omega arith))
  ]

-- In a valid state pmm_free_page panics exactly on an address that names no owned frame; on any other
-- it drops one owner.
pub free_page-Dropped :
    (p : Pmm) (pa : ℕ)
    → IsValid p
    → IsOwned p pa
    → (q : Pmm) × (free_page p pa ≡ some q) × Dropped p q (page_index pa)
unfolding free_page drop_owner
free_page-Dropped p pa v o = (
  drop_owner p (page_index pa),
  ground (arith, o.aligned, o.managed, o.owned, owned-is_used p (page_index pa) v.tracked o.owned),
  drop_owner-Dropped p (page_index pa) v (omega (arith, v.tracked.shaped.pa_end, o.managed))
      o.owned,
)

refuses : Pmm → ℕ → Bool
refuses p pa = not (pa % 4096 == 0) || leb p.managed_pa_end pa || owners p (page_index pa) == 0

refuses-IsOwned : (p : Pmm) (pa : ℕ) → refuses p pa ≡ false → IsOwned p pa
unfolding refuses
refuses-IsOwned p pa e = ground arith

refuses-not : (p : Pmm) (pa : ℕ) → refuses p pa ≡ true → ¬ IsOwned p pa
unfolding refuses
refuses-not p pa e o = ground (arith, o.aligned, o.managed, o.owned)

pub free_page_panics : (p : Pmm) (pa : ℕ) → IsValid p → ¬ IsOwned p pa → free_page p pa ≡ none
unfolding free_page refuses
free_page_panics p pa v h = elim (Bool-cases (refuses p pa)) [
  | inl e ↦ ground (arith, e)
  | inr e ↦ absurd (h (refuses-IsOwned p pa e))
]

-- In a valid state pmm_free_page drops one owner of an owned frame, freeing the frame with its last
-- owner and staying valid; on any other address it panics.
pub free_page_cases :
    (p : Pmm) (pa : ℕ)
    → IsValid p
    → (IsOwned p pa × ((q : Pmm) × (free_page p pa ≡ some q) × Dropped p q (page_index pa)))
      ⊎ ((¬ IsOwned p pa) × (free_page p pa ≡ none))
unfolding refuses
free_page_cases p pa v = elim (Bool-cases (refuses p pa)) [
  | inl e ↦ inr (refuses-not p pa e, free_page_panics p pa v (refuses-not p pa e))
  | inr e ↦ inl (refuses-IsOwned p pa e, free_page-Dropped p pa v (refuses-IsOwned p pa e))
]

-- What taking one more owner leaves.
pub record Shared (p q : Pmm) (idx : ℕ) : Type 0 where
  pub update : Update p q idx true (owners p idx + 1)
  pub valid : IsValid q
  pub used : q.used_count ≡ p.used_count

module _ (p : Pmm) (pa : ℕ) (v : IsValid p) where
  with_owner : Pmm
  with_owner = record (ref_set p (page_index pa) (owners p (page_index pa) + 1)) {
    n_ref = add64 p.n_ref 1;
  }

  with_owner-counters :
      (with_owner.used_count ≡ p.used_count) × (with_owner.alloc_hint ≡ p.alloc_hint)
  unfolding with_owner ref_set
  with_owner-counters = (refl, refl)

  with_owner-Shared :
      IsOwned p pa → owners p (page_index pa) < 0xFFFF → Shared p with_owner (page_index pa)
  unfolding with_owner
  with_owner-Shared o small = record {
    update = up;
    valid = record {
      tracked =
          Update-IsTracked up v.tracked inside (owned-ne-zero p (page_index pa) v.tracked o.owned)
            (omega arith) (λ h. cc);
      hint_in = omega (arith, with_owner-counters.1, v.hint_in, up.same_pages);
      used_counted = ground (
        arith,
        with_owner-counters.0,
        v.used_counted,
        count-is_used up inside,
        owned-is_used p (page_index pa) v.tracked o.owned,
      );
    };
    used = with_owner-counters.0;
  }
    where
      inside : page_index pa < p.managed_pages
      inside = omega (arith, v.tracked.shaped.pa_end, o.managed)

      up : Update p with_owner (page_index pa) true (owners p (page_index pa) + 1)
      up =
          with_cursor-Update p (ref_set p (page_index pa) (owners p (page_index pa) + 1)) _ _ _ _
            (page_index pa) true _
            (ref_set-Update p (page_index pa) _ inside v.tracked.shaped (omega arith)
              (owned-is_used p (page_index pa) v.tracked o.owned))

  -- In a valid state pmm_page_ref gives an owned frame one more owner, up to 65535 owners, changes no
  -- other frame and stays valid; otherwise it panics.
  pub page_ref_cases :
      (IsOwned p pa
        × (owners p (page_index pa) < 0xFFFF)
        × ((q : Pmm) × (page_ref p pa ≡ some q) × Shared p q (page_index pa)))
      ⊎ (((¬ IsOwned p pa) ⊎ (owners p (page_index pa) ≡ 0xFFFF)) × (page_ref p pa ≡ none))
  unfolding page_ref with_owner refuses
  page_ref_cases = elim (Bool-cases (refuses p pa)) [
    | inl e ↦ inr (inl (refuses-not p pa e), ground (arith, e))
    | inr e ↦
        let o = refuses-IsOwned p pa e in
        elim (ℕ_discrete (owners p (page_index pa)) 0xFFFF) [
          | yes full ↦
              inr (
                inr full,
                ground (arith, e, full, owned-is_used p (page_index pa) v.tracked o.owned),
              )
          | no room ↦
              let small : owners p (page_index pa) < 0xFFFF =
                omega (arith, v.tracked.owners_small (page_index pa)) in
              inl (
                o,
                small,
                (
                  with_owner,
                  ground (arith, e, owned-is_used p (page_index pa) v.tracked o.owned),
                  with_owner-Shared o small,
                ),
              )
        ]
  ]
