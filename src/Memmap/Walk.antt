-- ===== src/Memmap/Walk.antt =====
-- The parsers over any memory: each keeps the table within its array, and the walks over sizes found in
-- memory end, but for one kind of Multiboot2 tag.
use style9_os.Base.{
  ℕ, zero, suc, ◌+◌, ◌*◌, ◌≤◌, ◌<◌, ◌≡◌, refl, ap, ◌∙◌, ◌≢◌, inl, inr, ◌&&◌, none, some, leb, ltb,
  ◌==◌, Bool-cases, arith, ℕ_discrete,
}
use style9_os.Memmap.{Memmap}
use style9_os.Memmap.Boot.{
  Memory, u32, add_at, add_each, walk_mb1, tag_type, tag_step, tag_entry_size, add_tag, walk_mb2,
}
use style9_os.Memmap.Bounds.{IsBounded, add-IsBounded}

add_at-IsBounded : (mem : Memory) (m : Memmap) (e : ℕ) → IsBounded m → IsBounded (add_at mem m e)
unfolding add_at
add_at-IsBounded mem m e v = add-IsBounded m _ _ _ v

pub add_each-IsBounded :
    (mem : Memory) (n : ℕ) (m : Memmap) (e stride : ℕ)
    → IsBounded m
    → IsBounded (add_each mem n m e stride)
unfolding add_each
add_each-IsBounded mem zero m e stride v = v
add_each-IsBounded mem (suc n) m e stride v =
    add_each-IsBounded mem n (add_at mem m e) (e + stride) stride (add_at-IsBounded mem m e v)

-- An entry of Multiboot1 takes four bytes at least.
pub walk_mb1-ends :
    (fuel : ℕ) (mem : Memory) (m : Memmap) (cur end : ℕ)
    → IsBounded m
    → 0 < fuel
    → end + 4 ≤ cur + 4 * fuel
    → (q : Memmap) × (walk_mb1 fuel mem m cur end ≡ some q) × IsBounded q
unfolding walk_mb1
walk_mb1-ends zero mem m cur end v pos enough = absurd (omega arith)
walk_mb1-ends (suc fuel) mem m cur end v pos enough = elim (Bool-cases (ltb cur end)) [
  | inr past ↦ (m, simp past refl, v)
  | inl inside ↦
      let more : cur < end = ground (arith, inside) in
      let (q, h, w) =
        walk_mb1-ends fuel mem (add_at mem m (cur + 4)) (cur + (u32 mem cur + 4)) end
          (add_at-IsBounded mem m (cur + 4) v) (omega arith) (omega arith) in
      (q, simp inside h, w)
]

-- A tag that the walk reaches and never leaves: it is inside the block, ends nothing, and its size, rounded
-- up to a multiple of eight in 32 bits, is zero.
pub record IsStuck (mem : Memory) (start end p : ℕ) : Type 0 where
  pub after : start ≤ p
  pub inside : p + 8 ≤ end
  pub not_end : tag_type mem p ≢ 0
  pub no_step : tag_step mem p ≡ 0

add_tag-IsBounded : (mem : Memory) (m : Memmap) (p : ℕ) → IsBounded m → IsBounded (add_tag mem m p)
unfolding add_tag
add_tag-IsBounded mem m p v = elim (Bool-cases (tag_type mem p == 6)) [
  | inl is_map ↦ simp is_map (add_each-IsBounded mem _ m _ _ v)
  | inr other ↦ simp other v
]

-- One round of the Multiboot2 walk: it ends with the table as it is, or goes on behind a tag that is
-- not the end.
data Round (mem : Memory) (p end : ℕ) : Type 0 where
  ended : ((fuel : ℕ) (m : Memmap) → walk_mb2 (suc fuel) mem m p end ≡ some m) → Round mem p end
  passed :
      p + 8 ≤ end
      → tag_type mem p ≢ 0
      → ((fuel : ℕ) (m : Memmap)
          → walk_mb2 (suc fuel) mem m p end
            ≡ walk_mb2 fuel mem (add_tag mem m p) (p + tag_step mem p) end)
      → Round mem p end

walk_mb2-Round : (mem : Memory) (p end : ℕ) → Round mem p end
unfolding walk_mb2
walk_mb2-Round mem p end = elim (Bool-cases (leb (p + 8) end)) [
  | inr past ↦ ended (λ fuel m. simp past refl)
  | inl inside ↦ elim (Bool-cases (tag_type mem p == 0)) [
    | inl last ↦ ended (λ fuel m. simp (inside, last) refl)
    | inr open_tag ↦ elim (Bool-cases (tag_type mem p == 6 && tag_entry_size mem p == 0)) [
      | inl empty ↦ ended (λ fuel m. simp (inside, open_tag, empty) refl)
      | inr entries ↦
          passed (ground (arith, inside)) (ground (arith, open_tag))
            (λ fuel m. simp (inside, open_tag, entries) refl)
    ]
  ]
]

stuck_none :
    (mem : Memory) (p end : ℕ)
    → ((fuel : ℕ) (m : Memmap)
        → walk_mb2 (suc fuel) mem m p end
          ≡ walk_mb2 fuel mem (add_tag mem m p) (p + tag_step mem p) end)
    → tag_step mem p ≡ 0
    → (fuel : ℕ) (m : Memmap) → walk_mb2 fuel mem m p end ≡ none
stuck_none mem p end on no_step zero m = unfold walk_mb2 in refl
stuck_none mem p end on no_step (suc fuel) m =
    let here : p + tag_step mem p ≡ p = omega arith in
    on fuel m
    ∙ ap (λ x. walk_mb2 fuel mem (add_tag mem m p) x end) here
    ∙ stuck_none mem p end on no_step fuel (add_tag mem m p)

later_none :
    (mem : Memory) (m : Memmap) (p end : ℕ)
    → ((fuel : ℕ) (x : Memmap)
        → walk_mb2 (suc fuel) mem x p end
          ≡ walk_mb2 fuel mem (add_tag mem x p) (p + tag_step mem p) end)
    → ((more : ℕ) → walk_mb2 more mem (add_tag mem m p) (p + tag_step mem p) end ≡ none)
    → (more : ℕ) → walk_mb2 more mem m p end ≡ none
later_none mem m p end on h zero = unfold walk_mb2 in refl
later_none mem m p end on h (suc more) = on more m ∙ h more

-- What a walk comes to once it has a round for every eight bytes: a table within its array, or a tag that
-- no number of rounds leaves.
pub data Walked (mem : Memory) (m : Memmap) (p end fuel : ℕ) : Type 0 where
  walked : (q : Memmap) → walk_mb2 fuel mem m p end ≡ some q → IsBounded q → Walked mem m p end fuel
  stuck :
      (t : ℕ)
      → IsStuck mem p end t
      → ((more : ℕ) → walk_mb2 more mem m p end ≡ none)
      → Walked mem m p end fuel

pub walk_mb2-Walked :
    (fuel : ℕ) (mem : Memory) (m : Memmap) (p end : ℕ)
    → IsBounded m
    → 0 < fuel
    → end < p + 8 * fuel
    → Walked mem m p end fuel
walk_mb2-Walked zero mem m p end v pos enough = absurd (omega arith)
walk_mb2-Walked (suc fuel) mem m p end v pos enough = elim (walk_mb2-Round mem p end) [
  | ended done ↦ walked m (done fuel m) v
  | passed inside open_tag on ↦ elim (ℕ_discrete (tag_step mem p) 0) [
    | yes none_left ↦
        stuck p
          (record { after = omega arith; inside = inside; not_end = open_tag; no_step = none_left })
          (λ more. stuck_none mem p end on none_left more m)
    | no steps ↦
        elim (walk_mb2-Walked fuel mem (add_tag mem m p) (p + tag_step mem p) end
          (add_tag-IsBounded mem m p v) (omega arith) (omega arith)) [
            | walked q h w ↦ walked q (on fuel m ∙ h) w
            | stuck t s h ↦
                stuck t
                  (record {
                    after = omega (arith, s.after);
                    inside = s.inside;
                    not_end = s.not_end;
                    no_step = s.no_step;
                  })
                  (later_none mem m p end on h)
          ]
  ]
]
