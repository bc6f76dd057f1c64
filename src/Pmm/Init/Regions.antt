-- ===== src/Pmm/Init/Regions.antt =====
-- Reserving a range of addresses and opening the FREE regions, in pmm_init.
use style9_os.Base.{
  ℕ, ◌+◌, ◌*◌, ◌^◌, ◌≤◌, ◌<◌, ◌≡◌, refl, ◌∙◌, ◌⊎◌, inl, inr, true, false, List, [], ◌∷◌, ltb, leb,
  ◌==◌, if◌then◌else◌, Bool-cases, arith, add64, round_up, round_down, All,
}
use style9_os.Memmap.{Entry, is_free}
use style9_os.Pmm.{Pmm, is_used, page_index}
use style9_os.Pmm.Init.{mark_range_used, free_region, free_regions, page_steps}
use style9_os.Pmm.Init.Ranges.{IsOpening, between, mark_pages-Marked, free_steps-Marked}

-- Frame `i` lies wholly in a FREE region of the map.
unfoldable pub InRam : List Entry → ℕ → Type 0
InRam [] i = ⊥
InRam (e ∷ es) i =
    ((is_free e.kind ≡ true) × (e.base ≤ i * 4096) × (i * 4096 + 4096 ≤ e.base + e.len))
    ⊎ InRam es i

-- Reserving: used frames stay used, and those that meet the range are used.
pub record Reserved (p q : Pmm) (base len : ℕ) : Type 0 where
  pub opening : IsOpening q
  pub pages : q.managed_pages ≡ p.managed_pages
  pub end : q.managed_pa_end ≡ p.managed_pa_end
  pub kept : (i : ℕ) → is_used q i ≡ false → is_used p i ≡ false
  pub covered :
      (i : ℕ)
      → 0 < len
      → base + len + 4095 < 2 ^ 64
      → i < p.managed_pages
      → base < i * 4096 + 4096
      → i * 4096 < base + len
      → is_used q i ≡ true

pub mark_range_used-Reserved :
    (p : Pmm) (base len : ℕ) → IsOpening p → Reserved p (mark_range_used p base len) base len
unfolding mark_range_used
mark_range_used-Reserved p base len o = elim (Bool-cases (len == 0)) [
  | inl nothing ↦ rw nothing (record {
    opening = o;
    pages = refl;
    end = refl;
    kept = λ i u. u;
    covered = λ i nz s h l r. ground (arith, nothing);
  })
  | inr something ↦ elim (Bool-cases (leb p.managed_pa_end (round_down base))) [
    | inl past ↦
        rw (something, past)
          (record {
            opening = o;
            pages = refl;
            end = refl;
            kept = λ i u. u;
            covered = λ i nz s h l r. ground (arith, past, o.shaped.pa_end);
          })
    | inr inside ↦
        let m =
          mark_pages-Marked (page_steps (round_down base) stop) p (page_index (round_down base))
            (ground (arith, inside, o.shaped.pa_end)) o in
        rw (something, inside)
          (record {
            opening = m.opening;
            pages = m.pages;
            end = m.end;
            kept = λ i u. ground (arith, m.used_at i, u);
            covered = λ i nz s h l r. ground (arith, m.used_at i, inside, o.shaped.pa_end);
          })
  ]
]
  where
    end : ℕ
    end = round_up (add64 base len)

    stop : ℕ
    stop = if ltb p.managed_pa_end end then p.managed_pa_end else end

-- Opening regions: the bounds stay, and a frame that is free now was so or is RAM.
pub record Opened (p q : Pmm) (es : List Entry) : Type 0 where
  pub opening : IsOpening q
  pub pages : q.managed_pages ≡ p.managed_pages
  pub end : q.managed_pa_end ≡ p.managed_pa_end
  pub ram : (i : ℕ) → is_used q i ≡ false → (is_used p i ≡ false) ⊎ InRam es i

free_region-Opened :
    (p : Pmm) (e : Entry)
    → e.base + 4095 < 2 ^ 64
    → is_free e.kind ≡ true
    → IsOpening p
    → Opened p (free_region p e) (e ∷ [])
unfolding free_region InRam
free_region-Opened p e small f o = elim (Bool-cases (leb end base)) [
  | inl empty ↦ rw empty (record { opening = o; pages = refl; end = refl; ram = λ i u. inl u })
  | inr room ↦
      let m =
        free_steps-Marked (page_steps base end) p (page_index base)
          (ground (arith, room, o.shaped.pa_end)) o in
      rw room (record {
        opening = m.opening;
        pages = m.pages;
        end = m.end;
        ram = λ i u. elim (Bool-cases (is_used p i)) [
          | inr free ↦ inl free
          | inl was ↦
              let in_range : between (page_index base) (page_index base + page_steps base end) i
                  ≡ true =
                ground (arith, m.used_at i, u, was) in
              inr (inl (f, ground (arith, in_range), ground (arith, in_range, room)))
        ];
      })
]
  where
    base : ℕ
    base = round_up e.base

    end0 : ℕ
    end0 = round_down (add64 e.base e.len)

    end : ℕ
    end = if ltb p.managed_pa_end end0 then p.managed_pa_end else end0

pub free_regions-Opened :
    (es : List Entry) (p : Pmm)
    → All (λ e. e.base + 4095 < 2 ^ 64) es
    → IsOpening p
    → Opened p (free_regions p es) es
unfolding free_regions InRam
free_regions-Opened [] p small o = record {
  opening = o;
  pages = refl;
  end = refl;
  ram = λ i u. inl u;
}
free_regions-Opened (e ∷ es) p small o = elim (Bool-cases (is_free e.kind)) [
  | inl f ↦
      let first = free_region-Opened p e small.0 f o in
      let rest = free_regions-Opened es (free_region p e) small.1 first.opening in
      rw f (record {
        opening = rest.opening;
        pages = rest.pages ∙ first.pages;
        end = rest.end ∙ first.end;
        ram = λ i u. elim (rest.ram i u) [
          | inr r ↦ inr (inr r)
          | inl before ↦ elim (first.ram i before) [
            | inl start ↦ inl start
            | inr now ↦ elim now [
              | inl here ↦ inr (inl (f, here.1, here.2))
              | inr none_left ↦ absurd none_left
            ]
          ]
        ];
      })
  | inr f ↦
      let rest = free_regions-Opened es p small.1 o in
      rw f (record {
        opening = rest.opening;
        pages = rest.pages;
        end = rest.end;
        ram = λ i u. elim (rest.ram i u) [ inr r ↦ inr (inr r) | inl before ↦ inl before ];
      })
]
