-- ===== src/Pmm/Init/Ranges.antt =====
-- The loops of pmm_init over ranges of frames.
use style9_os.Base.{
  ℕ, zero, suc, ◌+◌, ◌≤◌, ◌<◌, ◌≡◌, refl, ap, ◌∙◌, inl, inr, Bool, true, false, not, ◌&&◌, ◌||◌,
  ltb, leb, ◌==◌, if◌then◌else◌, Bool-cases, arith, ℕ_discrete, count, count_update, count-le,
  count_pos, bit_value, add64, sub64,
}
use style9_os.Pmm.{Pmm, is_used, owners, mark_used, mark_free, set_bit}
use style9_os.Pmm.Bits.{bit}
use style9_os.Pmm.Invariant.{IsShaped, set_bit-IsShaped, bit-set_bit}
use style9_os.Pmm.Init.{mark_step, mark_pages, free_step, free_steps}

-- What holds of the state throughout pmm_init's second phase: no frame has an owner, and the used
-- frames are counted.
pub record IsOpening (p : Pmm) : Type 0 where
  pub shaped : IsShaped p
  pub unowned : (i : ℕ) → owners p i ≡ 0
  pub none_shared : p.shared_count ≡ 0
  pub used_counted : p.used_count ≡ count (is_used p) p.managed_pages
  pub hint : p.alloc_hint ≡ 0

-- `q` is `p` with these frames used, and nothing else changed.
pub record Marked (p q : Pmm) (f : ℕ → Bool) : Type 0 where
  pub opening : IsOpening q
  pub pages : q.managed_pages ≡ p.managed_pages
  pub end : q.managed_pa_end ≡ p.managed_pa_end
  pub used_at : (i : ℕ) → is_used q i ≡ f i

same-Marked : (p : Pmm) (f : ℕ → Bool) → IsOpening p → ((i : ℕ) → is_used p i ≡ f i) → Marked p p f
same-Marked p f o e = record { opening = o; pages = refl; end = refl; used_at = e }

-- one frame made used or free, and the count of used frames kept right
with_bit-Marked :
    (p : Pmm) (idx used : ℕ) (b : Bool)
    → idx < p.managed_pages
    → IsOpening p
    → used + bit_value (is_used p idx) ≡ p.used_count + bit_value b
    → Marked p
        (record p { bitmap = set_bit p.bitmap idx b; used_count = used })
        (λ i. if i == idx then b else is_used p i)
unfolding is_used
with_bit-Marked p idx used b h o e =
    let s = set_bit-IsShaped p idx h o.shaped b in
    let at = bit-set_bit p idx h o.shaped b in
    let counted =
      count_update (is_used p) (λ i. bit (set_bit p.bitmap idx b) i) idx b p.managed_pages h at in
    record {
      opening = record {
        shaped = record {
          words = s.words;
          covered = s.covered;
          counts = s.counts;
          pa_end = s.pa_end;
          small = s.small;
        };
        unowned = o.unowned;
        none_shared = o.none_shared;
        used_counted = omega (arith, counted, e, o.used_counted);
        hint = o.hint;
      };
      pages = refl;
      end = refl;
      used_at = at;
    }

mark_step-Marked :
    (p : Pmm) (idx : ℕ)
    → idx < p.managed_pages
    → IsOpening p
    → Marked p (mark_step p idx) (λ i. if i == idx then true else is_used p i)
unfolding mark_step mark_used
mark_step-Marked p idx h o = elim (Bool-cases (is_used p idx)) [
  | inl u ↦ rw u (
      same-Marked p _ o (λ i. elim (ℕ_discrete i idx) [
        | yes e ↦ ground (arith, u, ap (is_used p) e)
        | no ne ↦ ground arith
      ]))
  | inr u ↦ rw u (
      with_bit-Marked p idx (add64 p.used_count 1) true h o
        (ground (arith, u, o.used_counted, o.shaped.small, count-le (is_used p) p.managed_pages)))
]

free_step-Marked :
    (p : Pmm) (idx : ℕ)
    → idx < p.managed_pages
    → IsOpening p
    → Marked p (free_step p idx) (λ i. if i == idx then false else is_used p i)
unfolding free_step mark_free
free_step-Marked p idx h o = elim (Bool-cases (is_used p idx)) [
  | inr u ↦ rw u (
      same-Marked p _ o (λ i. elim (ℕ_discrete i idx) [
        | yes e ↦ ground (arith, u, ap (is_used p) e)
        | no ne ↦ ground arith
      ]))
  | inl u ↦ rw u (
      with_bit-Marked p idx (sub64 p.used_count 1) false h o (
        ground (
          arith,
          u,
          o.used_counted,
          o.shaped.small,
          count-le (is_used p) p.managed_pages,
          count_pos (is_used p) idx p.managed_pages h u,
        )))
]

abbrev pub between : ℕ → ℕ → ℕ → Bool
between lo hi i = leb lo i && ltb i hi

pub mark_pages-Marked :
    (n : ℕ) (p : Pmm) (idx : ℕ)
    → idx + n ≤ p.managed_pages
    → IsOpening p
    → Marked p (mark_pages n p idx) (λ i. between idx (idx + n) i || is_used p i)
unfolding mark_pages
mark_pages-Marked zero p idx h o = same-Marked p _ o (λ i. ground arith)
mark_pages-Marked (suc n) p idx h o =
    let s = mark_step-Marked p idx (omega arith) o in
    let r = mark_pages-Marked n (mark_step p idx) (suc idx) (omega (arith, s.pages)) s.opening in
    record {
      opening = r.opening;
      pages = r.pages ∙ s.pages;
      end = r.end ∙ s.end;
      used_at = λ i. ground (arith, r.used_at i, s.used_at i);
    }

pub free_steps-Marked :
    (n : ℕ) (p : Pmm) (idx : ℕ)
    → idx + n ≤ p.managed_pages
    → IsOpening p
    → Marked p (free_steps n p idx) (λ i. not (between idx (idx + n) i) && is_used p i)
unfolding free_steps
free_steps-Marked zero p idx h o = same-Marked p _ o (λ i. ground arith)
free_steps-Marked (suc n) p idx h o =
    let s = free_step-Marked p idx (omega arith) o in
    let r = free_steps-Marked n (free_step p idx) (suc idx) (omega (arith, s.pages)) s.opening in
    record {
      opening = r.opening;
      pages = r.pages ∙ s.pages;
      end = r.end ∙ s.end;
      used_at = λ i. ground (arith, r.used_at i, s.used_at i);
    }
