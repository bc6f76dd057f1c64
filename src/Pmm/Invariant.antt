-- ===== src/Pmm/Invariant.antt =====
-- What holds of the allocator's state between two calls, and how a change to one frame keeps it.
use style9_os.Base.{
  ℕ, ◌+◌, ◌*◌, ◌%◌, ◌^◌, ◌≤◌, ◌<◌, ◌≡◌, refl, ◌≢◌, Bool, true, false, length, ltb, ◌==◌,
  if◌then◌else◌, length-set, get_or-set_self, get_or-set_ne, arith, ℕ_discrete, count, count_update,
  count-le, count_pos, bit_value, ◌∙◌, ap,
}
use style9_os.Pmm.{Pmm, is_used, owners, mark_used, mark_free, ref_set, set_bit, shared_after}
use style9_os.Pmm.Bits.{
  IsWords, bit, length-set_bit, set_bit-IsWords, bit-set_bit_self, bit-set_bit_ne,
}

-- a frame with more than one owner
abbrev pub is_shared : Pmm → ℕ → Bool
is_shared p i = ltb 1 (owners p i)

-- The bookkeeping arrays have room for every managed frame.
pub record IsShaped (p : Pmm) : Type 0 where
  pub words : IsWords p.bitmap
  pub covered : p.managed_pages ≤ 64 * length p.bitmap
  pub counts : length p.refs ≡ p.managed_pages
  pub pa_end : p.managed_pa_end ≡ p.managed_pages * 4096
  pub small : p.managed_pages ≤ 2 ^ 18

-- The frames' states. A free frame has no owner. Frame 0 is used and unowned, so that no allocated
-- frame has the address PA_INVALID.
pub record IsTracked (p : Pmm) : Type 0 where
  pub shaped : IsShaped p
  pub shared_counted : p.shared_count ≡ count (is_shared p) p.managed_pages
  pub free_unowned : (i : ℕ) → is_used p i ≡ false → owners p i ≡ 0
  pub owners_small : (i : ℕ) → owners p i < 2 ^ 16
  pub zero_used : is_used p 0 ≡ true
  pub zero_unowned : owners p 0 ≡ 0

pub record IsValid (p : Pmm) : Type 0 where
  pub tracked : IsTracked p
  pub hint_in : p.alloc_hint ≤ p.managed_pages
  pub used_counted : p.used_count ≡ count (is_used p) p.managed_pages

-- `q` is `p` with frame `idx` made `u` (used or not) and given `v` owners; the allocation cursor and
-- the statistics are left open.
pub record Update (p q : Pmm) (idx : ℕ) (u : Bool) (v : ℕ) : Type 0 where
  pub shaped : IsShaped q
  pub same_pages : q.managed_pages ≡ p.managed_pages
  pub used_at : (i : ℕ) → is_used q i ≡ (if i == idx then u else is_used p i)
  pub owners_at : (i : ℕ) → owners q i ≡ (if i == idx then v else owners p i)
  pub shared : q.shared_count ≡ shared_after p.shared_count (owners p idx) v

module _ (p : Pmm) (idx : ℕ) (inside : idx < p.managed_pages) (s : IsShaped p) where
  pub set_bit-IsShaped : (b : Bool) → IsShaped (record p { bitmap = set_bit p.bitmap idx b })
  set_bit-IsShaped b = record {
    words = set_bit-IsWords p.bitmap idx b s.words;
    covered = omega (arith, length-set_bit p.bitmap idx b, s.covered);
    counts = s.counts;
    pa_end = s.pa_end;
    small = s.small;
  }

  pub ref_set-IsShaped : (v : ℕ) → IsShaped (ref_set p idx v)
  unfolding ref_set
  ref_set-IsShaped v = record {
    words = s.words;
    covered = s.covered;
    counts = length-set p.refs idx (v % 2 ^ 16) ∙ s.counts;
    pa_end = s.pa_end;
    small = s.small;
  }

  pub bit-set_bit :
      (b : Bool) (i : ℕ) → bit (set_bit p.bitmap idx b) i ≡ (if i == idx then b else bit p.bitmap i)
  bit-set_bit b i = elim (ℕ_discrete idx i) [
    | yes e ↦ ground (arith, bit-set_bit_self p.bitmap idx b s.words (omega (arith, s.covered)), e)
    | no ne ↦ ground (arith, bit-set_bit_ne p.bitmap idx i b s.words (omega (arith, s.covered)) ne)
  ]

  pub owners-ref_set :
      (v i : ℕ) → v < 2 ^ 16 → owners (ref_set p idx v) i ≡ (if i == idx then v else owners p i)
  unfolding ref_set
  owners-ref_set v i h = elim (ℕ_discrete idx i) [
    | yes e ↦ ground (arith, get_or-set_self p.refs idx (v % 2 ^ 16) 0 (omega (arith, s.counts)), e)
    | no ne ↦ ground (arith, get_or-set_ne p.refs idx i (v % 2 ^ 16) 0 ne)
  ]

-- Marking a frame and setting its owner count, in either order, is one change to that frame.
module _ (p : Pmm) (idx v : ℕ) (inside : idx < p.managed_pages) (s : IsShaped p)
    (h : v < 2 ^ 16) where
  pub mark_used-ref_set-Update : Update p (ref_set (mark_used p idx) idx v) idx true v
  unfolding mark_used is_used ref_set
  mark_used-ref_set-Update = record {
    shaped = ref_set-IsShaped (mark_used p idx) idx inside (set_bit-IsShaped p idx inside s true) v;
    same_pages = refl;
    used_at = bit-set_bit p idx inside s true;
    owners_at = λ i. owners-ref_set p idx inside s v i h;
    shared = refl;
  }

  pub ref_set-mark_free-Update : Update p (mark_free (ref_set p idx v) idx) idx false v
  unfolding mark_free is_used ref_set
  ref_set-mark_free-Update = record {
    shaped =
        set_bit-IsShaped (ref_set p idx v) idx inside (ref_set-IsShaped p idx inside s v) false;
    same_pages = refl;
    used_at = bit-set_bit p idx inside s false;
    owners_at = λ i. owners-ref_set p idx inside s v i h;
    shared = refl;
  }

  pub ref_set-Update : is_used p idx ≡ true → Update p (ref_set p idx v) idx true v
  unfolding ref_set is_used
  ref_set-Update u = record {
    shaped = ref_set-IsShaped p idx inside s v;
    same_pages = refl;
    used_at = λ i. ground (arith, u, ℕ_discrete i idx);
    owners_at = λ i. owners-ref_set p idx inside s v i h;
    shared = refl;
  }

module _ {p q : Pmm} {idx v : ℕ} {u : Bool} (up : Update p q idx u v) where
  pub count-is_used :
      idx < p.managed_pages
      → count (is_used q) q.managed_pages + bit_value (is_used p idx)
        ≡ count (is_used p) p.managed_pages + bit_value u
  count-is_used inside =
      simp up.same_pages
        (count_update (is_used p) (is_used q) idx u p.managed_pages inside up.used_at)

  count-is_shared :
      idx < p.managed_pages
      → count (is_shared q) q.managed_pages + bit_value (is_shared p idx)
        ≡ count (is_shared p) p.managed_pages + bit_value (ltb 1 v)
  count-is_shared inside = simp up.same_pages (
      count_update (is_shared p) (is_shared q) idx (ltb 1 v) p.managed_pages inside
        (λ i. ground (arith, up.owners_at i)))

  shared-step :
      IsTracked p → idx < p.managed_pages → q.shared_count ≡ count (is_shared q) q.managed_pages
  shared-step t inside = ground (
    arith,
    up.shared,
    count-is_shared inside,
    t.shared_counted,
    count-le (is_shared p) p.managed_pages,
    t.shaped.small,
    count_pos (is_shared p) idx p.managed_pages inside,
  )

  pub Update-IsTracked :
      IsTracked p → idx < p.managed_pages → idx ≢ 0 → v < 2 ^ 16 → (u ≡ false → v ≡ 0) → IsTracked q
  Update-IsTracked t inside ne lt free = record {
    shaped = up.shaped;
    shared_counted = shared-step t inside;
    free_unowned = λ i e. ground (arith, up.used_at i, up.owners_at i, t.free_unowned i, free);
    owners_small = λ i. ground (arith, up.owners_at i, t.owners_small i);
    zero_used = ground (arith, up.used_at 0, t.zero_used);
    zero_unowned = ground (arith, up.owners_at 0, t.zero_unowned);
  }

-- The cursor and the statistics have no part in the frames' states.
module _ (p q : Pmm) (used hint n_ref n_lastref : ℕ) where
  abbrev pub with_cursor : Pmm
  with_cursor = record q {
    used_count = used;
    alloc_hint = hint;
    n_ref = n_ref;
    n_lastref = n_lastref;
  }

  pub with_cursor-Update :
      (idx : ℕ) (u : Bool) (v : ℕ) → Update p q idx u v → Update p with_cursor idx u v
  unfolding is_used
  with_cursor-Update idx u v up = record {
    shaped = record {
      words = up.shaped.words;
      covered = up.shaped.covered;
      counts = up.shaped.counts;
      pa_end = up.shaped.pa_end;
      small = up.shaped.small;
    };
    same_pages = up.same_pages;
    used_at = up.used_at;
    owners_at = up.owners_at;
    shared = up.shared;
  }

-- A frame that is free, or that has an owner, is not frame 0.
pub free-ne-zero : (p : Pmm) (idx : ℕ) → IsTracked p → is_used p idx ≡ false → idx ≢ 0
free-ne-zero p idx t e z = cc (ap (is_used p) z, t.zero_used)

pub owned-ne-zero : (p : Pmm) (idx : ℕ) → IsTracked p → owners p idx ≢ 0 → idx ≢ 0
owned-ne-zero p idx t h z = h (ap (owners p) z ∙ t.zero_unowned)
