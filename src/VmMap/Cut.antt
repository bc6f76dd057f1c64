-- ===== src/VmMap/Cut.antt =====
-- vm_map_clip_locked: an entry is cut in two, and every address keeps its page.
use mathlib.Core.Option.{some-injective}
use style9_os.Base.{
  ℕ, ◌+◌, ◌%◌, ◌≤◌, ◌<◌, ◌≡◌, refl, ap, ◌∙◌, ◌≢◌, ◌⊎◌, inl, inr, Bool, true, false, none, some,
  List, [], ◌∷◌, ltb, Bool-cases, Option-cases, arith, length, add64, All, ℕ_discrete,
}
use style9_os.VmMap.{VmMap, Entry, lookup, cut, front_half, back_half, split_locked, clip_locked}
use style9_os.VmMap.Chain.{IsChain, lookup_covers}
use style9_os.VmMap.Lookup.{page_at, page_at-cons}
use style9_os.VmMap.Invariant.{IsValid, length-le}
use style9_os.VmObject.{Objects, ref}

-- no entry reaches over `at`
abbrev pub IsBoundary : ℕ → List Entry → Type 0
IsBoundary at es = All (λ e. (at ≤ e.start) ⊎ (e.end ≤ at)) es

-- An address found in the list lies in its first entry or in the rest.
lookup-head :
    (lo : ℕ) (x : Entry) (es : List Entry) (hi at : ℕ) (e : Entry)
    → IsChain lo (x ∷ es) hi
    → lookup (x ∷ es) at ≡ some e
    → ((x ≡ e) × (at < x.end)) ⊎ ((x.end ≤ at) × (lookup es at ≡ some e) × (x.start ≢ e.start))
unfolding lookup
lookup-head lo x es hi at e c h = elim (Bool-cases (ltb at x.start)) [
  | inl low ↦ absurd (ground (arith, h, low))
  | inr high ↦ elim (Bool-cases (ltb at x.end)) [
    | inl inside ↦ inl (some-injective x e (ground (arith, h, high, inside)), ground arith)
    | inr past ↦
        let rest : lookup es at ≡ some e = ground (arith, h, high, past) in
        inr (ground arith, rest, omega (arith, lookup_covers x.end es hi at e c.4 rest, c.1))
  ]
]

cut_here :
    (y : Entry) (es : List Entry) (s at : ℕ)
    → y.start ≡ s
    → cut (y ∷ es) s at ≡ front_half y at ∷ back_half y at ∷ es
unfolding cut
cut_here y es s at h = ground arith

cut_past :
    (y : Entry) (es : List Entry) (s at : ℕ) → y.start ≢ s → cut (y ∷ es) s at ≡ y ∷ cut es s at
unfolding cut
cut_past y es s at h = ground arith

halves-page :
    (y : Entry) (es : List Entry) (at x : ℕ)
    → y.start < at
    → at < y.end
    → page_at (front_half y at ∷ back_half y at ∷ es) x ≡ page_at (y ∷ es) x
halves-page y es at x lt gt = ground (
  arith,
  page_at-cons (front_half y at) (back_half y at ∷ es) x,
  page_at-cons (back_half y at) es x,
  page_at-cons y es x,
)

-- Cutting the entry found at `at` changes no address's page.
cut-page :
    (lo : ℕ) (es : List Entry) (hi at : ℕ) (e : Entry)
    → IsChain lo es hi
    → lookup es at ≡ some e
    → e.start < at
    → (x : ℕ) → page_at (cut es e.start at) x ≡ page_at es x
unfolding cut lookup
cut-page lo [] hi at e c h lt x = refl
cut-page lo (y ∷ es) hi at e c h lt x = elim (lookup-head lo y es hi at e c h) [
  | inl (same, inside) ↦
      let s : y.start ≡ e.start = ap (λ (z : Entry). z.start) same in
      ap (λ l. page_at l x) (cut_here y es e.start at s)
      ∙ halves-page y es at x (omega arith) inside
  | inr (past, rest, ne) ↦
      ap (λ l. page_at l x) (cut_past y es e.start at ne)
      ∙ ground (
        arith,
        page_at-cons y (cut es e.start at) x,
        page_at-cons y es x,
        cut-page y.end es hi at e c.4 rest lt x,
      )
]

cut-IsChain :
    (lo : ℕ) (es : List Entry) (hi at : ℕ) (e : Entry)
    → IsChain lo es hi
    → lookup es at ≡ some e
    → e.start < at
    → at % 4096 ≡ 0
    → IsChain lo (cut es e.start at) hi
unfolding cut lookup
cut-IsChain lo [] hi at e c h lt a = c
cut-IsChain lo (y ∷ es) hi at e c h lt a = elim (lookup-head lo y es hi at e c h) [
  | inl (same, inside) ↦
      let s : y.start ≡ e.start = ap (λ (z : Entry). z.start) same in
      rw (cut_here y es e.start at s) (c.0, omega arith, c.2, a, (omega arith, inside, a, c.3, c.4))
  | inr (past, rest, ne) ↦
      rw (cut_past y es e.start at ne)
        (c.0, c.1, c.2, c.3, cut-IsChain y.end es hi at e c.4 rest lt a)
]

length-cut :
    (lo : ℕ) (es : List Entry) (hi at : ℕ) (e : Entry)
    → IsChain lo es hi
    → lookup es at ≡ some e
    → length (cut es e.start at) ≡ length es + 1
unfolding cut lookup
length-cut lo [] hi at e c h = cc
length-cut lo (y ∷ es) hi at e c h = elim (lookup-head lo y es hi at e c h) [
  | inl (same, inside) ↦
      let s : y.start ≡ e.start = ap (λ (z : Entry). z.start) same in
      ap length (cut_here y es e.start at s) ∙ omega arith
  | inr (past, rest, ne) ↦
      ap length (cut_past y es e.start at ne) ∙ omega (arith, length-cut y.end es hi at e c.4 rest)
]

IsBoundary-above :
    (at lo : ℕ) (es : List Entry) (hi : ℕ) → IsChain lo es hi → at ≤ lo → IsBoundary at es
IsBoundary-above at lo [] hi c h = tt
IsBoundary-above at lo (e ∷ es) hi c h =
    (inl (omega (arith, c.0)), IsBoundary-above at e.end es hi c.4 (omega (arith, c.0, c.1)))

-- Once cut there, `at` is a boundary; and a boundary elsewhere stays one.
cut-IsBoundary :
    (lo : ℕ) (es : List Entry) (hi at : ℕ) (e : Entry)
    → IsChain lo es hi
    → lookup es at ≡ some e
    → e.start < at
    → IsBoundary at (cut es e.start at)
unfolding cut lookup
cut-IsBoundary lo [] hi at e c h lt = tt
cut-IsBoundary lo (y ∷ es) hi at e c h lt = elim (lookup-head lo y es hi at e c h) [
  | inl (same, inside) ↦
      let s : y.start ≡ e.start = ap (λ (z : Entry). z.start) same in
      rw (cut_here y es e.start at s)
        (inr (omega arith), (inl (omega arith), IsBoundary-above at y.end es hi c.4 (omega arith)))
  | inr (past, rest, ne) ↦
      rw (cut_past y es e.start at ne) (inr past, cut-IsBoundary y.end es hi at e c.4 rest lt)
]

cut_keeps-IsBoundary :
    (b lo : ℕ) (es : List Entry) (hi at : ℕ) (e : Entry)
    → IsChain lo es hi
    → lookup es at ≡ some e
    → e.start < at
    → IsBoundary b es
    → IsBoundary b (cut es e.start at)
unfolding cut lookup
cut_keeps-IsBoundary b lo [] hi at e c h lt k = tt
cut_keeps-IsBoundary b lo (y ∷ es) hi at e c h lt k = elim (lookup-head lo y es hi at e c h) [
  | inl (same, inside) ↦
      let s : y.start ≡ e.start = ap (λ (z : Entry). z.start) same in
      rw (cut_here y es e.start at s) (omega (arith, k.0), (omega (arith, k.0), k.1))
  | inr (past, rest, ne) ↦
      rw (cut_past y es e.start at ne)
        (k.0, cut_keeps-IsBoundary b y.end es hi at e c.4 rest lt k.1)
]

lookup-none :
    (y : Entry) (es : List Entry) (at : ℕ)
    → lookup (y ∷ es) at ≡ none
    → (at < y.start) ⊎ ((y.end ≤ at) × (lookup es at ≡ none))
unfolding lookup
lookup-none y es at h = elim (Bool-cases (ltb at y.start)) [
  | inl low ↦ inl (ground arith)
  | inr high ↦ elim (Bool-cases (ltb at y.end)) [
    | inl inside ↦ absurd (ground (arith, h, high, inside))
    | inr past ↦ inr (ground arith, ground (arith, h, high, past))
  ]
]

-- A place that no entry covers, or where one starts, is a boundary.
lookup-IsBoundary :
    (lo : ℕ) (es : List Entry) (hi at : ℕ)
    → IsChain lo es hi
    → (lookup es at ≡ none) ⊎ ((e : Entry) × (lookup es at ≡ some e) × (e.start ≡ at))
    → IsBoundary at es
unfolding lookup
lookup-IsBoundary lo [] hi at c h = tt
lookup-IsBoundary lo (y ∷ es) hi at c (inl e) = elim (lookup-none y es at e) [
  | inl low ↦ (inl (omega arith), IsBoundary-above at y.end es hi c.4 (omega (arith, c.1)))
  | inr (past, rest) ↦ (inr past, lookup-IsBoundary y.end es hi at c.4 (inl rest))
]
lookup-IsBoundary lo (y ∷ es) hi at c (inr (e, h, s)) = elim (lookup-head lo y es hi at e c h) [
  | inl (same, inside) ↦
      let same_start : y.start ≡ e.start = ap (λ (z : Entry). z.start) same in
      (inl (omega arith), IsBoundary-above at y.end es hi c.4 (omega arith))
  | inr (past, rest, ne) ↦ (inr past, lookup-IsBoundary y.end es hi at c.4 (inr (e, rest, s)))
]

-- What making `at` a boundary promises of the new map: it is valid with the same window, every
-- address keeps its page, and no entry reaches over `at`; what was a boundary still is one.
pub record Clipped (m q : VmMap) (at : ℕ) : Type 0 where
  pub valid : IsValid q
  pub same_window : (q.lo ≡ m.lo) × (q.hi ≡ m.hi) × (q.hint ≡ m.hint)
  pub same_pages : (x : ℕ) → page_at q.entries x ≡ page_at m.entries x
  pub boundary : IsBoundary at q.entries
  pub kept : (b : ℕ) → IsBoundary b m.entries → IsBoundary b q.entries

-- the map with `e` cut at `at`
with_cut : VmMap → Entry → ℕ → VmMap
with_cut m e at = record m { entries = cut m.entries e.start at; count = add64 m.count 1 }

with_cut-Clipped :
    (m : VmMap) (e : Entry) (at : ℕ)
    → IsValid m
    → lookup m.entries at ≡ some e
    → e.start < at
    → at % 4096 ≡ 0
    → Clipped m (with_cut m e at) at
unfolding with_cut
with_cut-Clipped m e at v h lt a =
    let chain = cut-IsChain m.lo m.entries m.hi at e v.chain h lt a in
    let len = length-cut m.lo m.entries m.hi at e v.chain h in
    record {
      valid = record {
        chain = chain;
        hi_small = v.hi_small;
        hi_aligned = v.hi_aligned;
        lo_aligned = v.lo_aligned;
        hint_aligned = v.hint_aligned;
        hint_in = v.hint_in;
        counted = omega (
          arith,
          v.counted,
          len,
          v.hi_small,
          length-le m.lo (cut m.entries e.start at) m.hi chain,
        );
      };
      same_window = (refl, refl, refl);
      same_pages = cut-page m.lo m.entries m.hi at e v.chain h lt;
      boundary = cut-IsBoundary m.lo m.entries m.hi at e v.chain h lt;
      kept = λ b. cut_keeps-IsBoundary b m.lo m.entries m.hi at e v.chain h lt;
    }

-- In a valid map vm_map_clip_locked makes an aligned address an entry boundary, without changing the
-- page of any address. It changes nothing where no entry covers the address or one starts there; an
-- entry that starts below it is cut in two, which counts one more entry and takes one more reference
-- on that entry's object. It fails, changing nothing, only without memory and only where it would cut.
-- Its assertions hold.
pub clip_locked_cases :
    (mem : Bool) (m : VmMap) (objs : Objects) (at : ℕ)
    → IsValid m
    → at % 4096 ≡ 0
    → (((lookup m.entries at ≡ none)
          ⊎ ((e : Entry) × (lookup m.entries at ≡ some e) × (e.start ≡ at)))
        × (clip_locked mem m objs at ≡ some (true, m, objs))
        × IsBoundary at m.entries)
      ⊎ ((e : Entry) × (lookup m.entries at ≡ some e)
          × (e.start < at)
          × (((mem ≡ true)
                × ((q : VmMap) × (clip_locked mem m objs at ≡ some (true, q, ref objs e.object))
                    × Clipped m q at
                    × (q.entries ≡ cut m.entries e.start at)
                    × (length q.entries ≡ length m.entries + 1)))
              ⊎ ((mem ≡ false) × (clip_locked mem m objs at ≡ some (false, m, objs)))))
unfolding clip_locked split_locked with_cut
clip_locked_cases mem m objs at v a = elim (Option-cases (lookup m.entries at)) [
  | inl e ↦
      inl (inl e, rw (e, clip_locked), lookup-IsBoundary m.lo m.entries m.hi at v.chain (inl e))
  | inr (e, h) ↦
      let cov = lookup_covers m.lo m.entries m.hi at e v.chain h in
      elim (ℕ_discrete e.start at) [
        | yes s ↦ inl (
          inr (e, h, s),
          rw (h, clip_locked) (ground arith),
          lookup-IsBoundary m.lo m.entries m.hi at v.chain (inr (e, h, s)),
        )
        | no s ↦
            let below : e.start < at = omega arith in
            inr (
              e,
              h,
              below,
              elim (Bool-cases mem) [
                | inl have ↦ inl (
                  have,
                  (
                    with_cut m e at,
                    rw (h, clip_locked) (ground (arith, have, cov, a)),
                    with_cut-Clipped m e at v h below a,
                    refl,
                    length-cut m.lo m.entries m.hi at e v.chain h,
                  ),
                )
                | inr lack ↦ inr (lack, rw (h, clip_locked) (ground (arith, lack, cov, a)))
              ],
            )
      ]
]
