-- ===== src/VmMap/Space.antt =====
-- vm_map_find_space: the hole it finds is one, and it finds one if there is one.
use style9_os.Base.{
  ℕ, ◌+◌, ◌%◌, ◌^◌, ◌≤◌, ◌<◌, ◌≡◌, refl, subst, ◌≢◌, inl, inr, true, false, ◌&&◌, Option, none,
  some, List, [], ◌∷◌, ltb, leb, ◌==◌, if◌then◌else◌, Bool-cases, arith, add64, round_up,
}
use style9_os.VmMap.{VmMap, Entry, lookup, slide, hole_locked, find_space}
use style9_os.VmMap.Chain.{IsChain, IsChain-le}
use style9_os.VmMap.Lookup.{IsHole, IsHole-head, IsHole-tail}
use style9_os.VmMap.Invariant.{IsValid}

slide_skip :
    (e : Entry) (es : List Entry) (size cur : ℕ)
    → leb e.end cur ≡ true
    → slide (e ∷ es) size cur ≡ slide es size cur
unfolding slide
slide_skip e es size cur h = rw h

slide_fits :
    (e : Entry) (es : List Entry) (size cur : ℕ)
    → leb e.end cur ≡ false
    → leb (add64 cur size) e.start ≡ true
    → slide (e ∷ es) size cur ≡ cur
unfolding slide
slide_fits e es size cur h k = rw (h, k)

slide_past :
    (e : Entry) (es : List Entry) (size cur : ℕ)
    → leb e.end cur ≡ false
    → leb (add64 cur size) e.start ≡ false
    → slide (e ∷ es) size cur ≡ slide es size e.end
unfolding slide
slide_past e es size cur h k = rw (h, k)

-- The cursor only moves up, stays in the window and stays aligned.
record Slid (hi cur out : ℕ) : Type 0 where
  up : cur ≤ out
  under : cur ≤ hi → out ≤ hi
  aligned : cur % 4096 ≡ 0 → out % 4096 ≡ 0

slide-Slid :
    (lo : ℕ) (es : List Entry) (hi size cur : ℕ)
    → IsChain lo es hi
    → Slid hi cur (slide es size cur)
slide-Slid lo [] hi size cur c =
    unfold slide in record { up = omega arith; under = λ h. h; aligned = λ h. h }
slide-Slid lo (e ∷ es) hi size cur c = elim (Bool-cases (leb e.end cur)) [
  | inl skip ↦ rw (slide_skip e es size cur skip) (slide-Slid e.end es hi size cur c.4)
  | inr reach ↦ elim (Bool-cases (leb (add64 cur size) e.start)) [
    | inl fits ↦
        rw (slide_fits e es size cur reach fits)
          (record { up = omega arith; under = λ h. h; aligned = λ h. h })
    | inr past ↦
        let rest = slide-Slid e.end es hi size e.end c.4 in
        rw (slide_past e es size cur reach past) (record {
          up = ground (arith, reach, rest.up);
          under = λ h. rest.under (IsChain-le e.end es hi c.4);
          aligned = λ h. rest.aligned c.3;
        })
  ]
]

-- Where the cursor stops, the next `size` bytes are free.
slide-IsHole :
    (lo : ℕ) (es : List Entry) (hi size cur : ℕ)
    → IsChain lo es hi
    → hi + size < 2 ^ 64
    → cur ≤ hi
    → IsHole es (slide es size cur) (slide es size cur + size)
unfolding lookup
slide-IsHole lo [] hi size cur c small h x l u = refl
slide-IsHole lo (e ∷ es) hi size cur c small h x l u = elim (Bool-cases (leb e.end cur)) [
  | inl skip ↦ ground (
    arith,
    skip,
    slide_skip e es size cur skip,
    (slide-Slid e.end es hi size cur c.4).up,
    c.1,
    slide-IsHole e.end es hi size cur c.4 small h x,
  )
  | inr reach ↦ elim (Bool-cases (leb (add64 cur size) e.start)) [
    | inl fits ↦ ground (arith, fits, slide_fits e es size cur reach fits)
    | inr past ↦ ground (
      arith,
      slide_past e es size cur reach past,
      (slide-Slid e.end es hi size e.end c.4).up,
      c.1,
      slide-IsHole e.end es hi size e.end c.4 small (IsChain-le e.end es hi c.4) x,
    )
  ]
]

-- No hole of that size starts between where the cursor began and where it stopped.
slide_first :
    (lo : ℕ) (es : List Entry) (hi size cur y : ℕ)
    → IsChain lo es hi
    → hi + size < 2 ^ 64
    → cur ≤ hi
    → 0 < size
    → cur ≤ y
    → y < slide es size cur
    → ¬ IsHole es y (y + size)
slide_first lo [] hi size cur y c small h pos l u hole = absurd (unfold slide in omega arith)
slide_first lo (e ∷ es) hi size cur y c small h pos l u hole =
    let tail = IsHole-tail lo e es hi y (y + size) c hole in
    elim (Bool-cases (leb e.end cur)) [
      | inl skip ↦
          slide_first e.end es hi size cur y c.4 small h pos l
            (omega (arith, slide_skip e es size cur skip)) tail
      | inr reach ↦ elim (Bool-cases (leb (add64 cur size) e.start)) [
        | inl fits ↦ omega (arith, slide_fits e es size cur reach fits)
        | inr past ↦ elim (IsHole-head lo e es hi y (y + size) c (omega arith) hole) [
          | inl before ↦ ground (arith, past, before)
          | inr behind ↦
              slide_first e.end es hi size e.end y c.4 small (IsChain-le e.end es hi c.4) pos behind
                (omega (arith, slide_past e es size cur reach past)) tail
        ]
      ]
    ]

-- What a search from `from` answers: a hole at or above it, or 0 and there is none.
record Searched (m : VmMap) (size from va : ℕ) : Type 0 where
  found :
      va ≢ 0 → (from ≤ va) × (va + size ≤ m.hi) × (va % 4096 ≡ 0) × IsHole m.entries va (va + size)
  missing : va ≡ 0 → (y : ℕ) → from ≤ y → y + size ≤ m.hi → ¬ IsHole m.entries y (y + size)

abbrev first_place : VmMap → ℕ → ℕ
first_place m from = if ltb from m.lo then m.lo else from

hole_locked-Searched :
    (m : VmMap) (size from : ℕ)
    → IsValid m
    → m.hi + size < 2 ^ 64
    → 0 < size
    → 0 < m.lo
    → from ≤ m.hi
    → from % 4096 ≡ 0
    → Searched m size (first_place m from) (hole_locked m size from)
unfolding hole_locked
hole_locked-Searched m size from v small pos low h a =
    let cur = first_place m from in
    let top : cur ≤ m.hi = ground (arith, IsChain-le m.lo m.entries m.hi v.chain) in
    let s = slide-Slid m.lo m.entries m.hi size cur v.chain in
    let out = slide m.entries size cur in
    let under = s.under top in
    elim (Bool-cases (ltb m.hi (add64 out size))) [
      | inl past ↦ rw past (record {
        found = λ ne. absurd (ne refl);
        missing = λ e y l u.
            slide_first m.lo m.entries m.hi size cur y v.chain small top pos l
              (ground (arith, past, under));
      })
      | inr fits ↦ rw fits (record {
        found = λ ne. (
          s.up,
          ground (arith, fits, under),
          s.aligned (ground (arith, v.lo_aligned)),
          slide-IsHole m.lo m.entries m.hi size cur v.chain small top,
        );
        missing = λ e. absurd (ground (arith, s.up, e));
      })
    ]

-- What vm_map_find_space answers for a size rounded to pages.
pub data SpaceFound (m : VmMap) (size : ℕ) : Option (ℕ × VmMap) → Type 0 where
  space :
      (va : ℕ) (q : VmMap)
      → m.lo ≤ va
      → va + size ≤ m.hi
      → va % 4096 ≡ 0
      → IsHole q.entries va (va + size)
      → IsValid q
      → (q.entries ≡ m.entries) × (q.lo ≡ m.lo) × (q.hi ≡ m.hi)
      → SpaceFound m size (some (va, q))
  full :
      ((y : ℕ) → m.lo ≤ y → y + size ≤ m.hi → ¬ IsHole m.entries y (y + size))
      → SpaceFound m size none

-- The next-fit search and then the search from the floor, as one.
both-Searched :
    (m : VmMap) (size : ℕ)
    → IsValid m
    → m.hi + size < 2 ^ 64
    → 0 < size
    → 0 < m.lo
    → Searched m size m.lo (
        if hole_locked m size m.hint == 0 && ltb m.lo m.hint
        then hole_locked m size m.lo
        else hole_locked m size m.hint)
both-Searched m size v small pos low =
    let from_lo =
      hole_locked-Searched m size m.lo v small pos low (IsChain-le m.lo m.entries m.hi v.chain)
        v.lo_aligned in
    let from_hint = hole_locked-Searched m size m.hint v small pos low v.hint_in v.hint_aligned in
    elim (Bool-cases (hole_locked m size m.hint == 0 && ltb m.lo m.hint)) [
      | inl again ↦
          rw again (subst (λ k. Searched m size k (hole_locked m size m.lo)) (ground arith) from_lo)
      | inr once ↦ rw once (record {
        found = λ ne. let f = from_hint.found ne in (ground (arith, f.0), f.1, f.2, f.3);
        missing = λ e y l u. from_hint.missing e y (ground (arith, once, e)) u;
      })
    ]

-- the tail of vm_map_find_space
abbrev answer : VmMap → ℕ → ℕ → Option (ℕ × VmMap)
answer m size va = if va == 0 then none else some (va, record m { hint = add64 va size })

answer-SpaceFound :
    (m : VmMap) (size va : ℕ)
    → IsValid m
    → size % 4096 ≡ 0
    → Searched m size m.lo va
    → SpaceFound m size (answer m size va)
answer-SpaceFound m size va v a s = elim (Bool-cases (va == 0)) [
  | inl zero_va ↦ rw zero_va (full (s.missing (ground arith)))
  | inr some_va ↦
      let f = s.found (ground arith) in
      rw some_va (
        space va (record m { hint = add64 va size }) f.0 f.1 f.2 f.3
          (record {
            chain = v.chain;
            hi_small = v.hi_small;
            hi_aligned = v.hi_aligned;
            lo_aligned = v.lo_aligned;
            hint_aligned = omega (arith, f.1, f.2, v.hi_small, a);
            hint_in = omega (arith, f.1, v.hi_small);
            counted = v.counted;
          })
          (refl, refl, refl))
]

-- In a valid map whose floor is above 0, and for a size that overflows nothing, vm_map_find_space
-- finds an aligned hole of the rounded size inside the window if there is one, records nothing but
-- its hint, and fails only if there is none.
pub find_space-SpaceFound :
    (m : VmMap) (size : ℕ)
    → IsValid m
    → 0 < m.lo
    → 0 < size
    → m.hi + size + 4096 < 2 ^ 64
    → SpaceFound m (round_up size) (find_space m size)
unfolding find_space
find_space-SpaceFound m size v low pos small =
    let nonzero : (size == 0) ≡ false = ground arith in
    rw nonzero (
      answer-SpaceFound m (round_up size) _ v (omega arith)
        (both-Searched m (round_up size) v (omega arith) (omega arith) low))
