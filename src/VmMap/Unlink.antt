-- ===== src/VmMap/Unlink.antt =====
-- vm_map_remove: the entries wholly inside a range leave the map.
use style9_os.Base.{
  ℕ, ◌+◌, ◌^◌, ◌<◌, ◌≡◌, refl, inl, inr, Bool, false, ◌&&◌, none, List, [], ◌∷◌, ltb, leb, ◌==◌,
  if◌then◌else◌, Bool-cases, arith, length, add64, sub64,
}
use style9_os.VmMap.{VmMap, Entry, lookup, unlink, remove}
use style9_os.VmMap.Chain.{IsChain, IsChain-down, lookup_below}
use style9_os.VmMap.Lookup.{page_at, page_at-cons}
use style9_os.VmMap.Invariant.{IsValid, length-le}
use style9_os.VmMap.Cut.{IsBoundary}
use style9_os.VmObject.{Objects}

page_below : (lo : ℕ) (es : List Entry) (hi x : ℕ) → IsChain lo es hi → x < lo → page_at es x ≡ none
unfolding page_at
page_below lo es hi x c h = rw (lookup_below lo es hi x c h)

abbrev pub inside : ℕ → ℕ → ℕ → Bool
inside va stop x = leb va x && ltb x stop

-- With both ends of the range boundaries, unlinking leaves no page in it and every other page as it
-- was.
pub unlink-page :
    (lo : ℕ) (es : List Entry) (hi va stop x : ℕ) (gone : List Entry)
    → IsChain lo es hi
    → IsBoundary va es
    → IsBoundary stop es
    → page_at (unlink es va stop gone).0 x ≡ (if inside va stop x then none else page_at es x)
unfolding unlink
unlink-page lo [] hi va stop x gone c bv bs = unfold page_at lookup in ground arith
unlink-page lo (e ∷ es) hi va stop x gone c bv bs = elim (Bool-cases (leb stop e.start)) [
  | inl past ↦
      rw past
        (ground (arith, past, page_below e.start (e ∷ es) hi x (omega arith, c.1, c.2, c.3, c.4)))
  | inr over ↦ elim (Bool-cases (leb va e.start && leb e.end stop)) [
    | inl taken ↦
        rw (over, taken)
          (ground (
            arith,
            taken,
            unlink-page e.end es hi va stop x (e ∷ gone) c.4 bv.1 bs.1,
            page_at-cons e es x,
            page_below e.end es hi x c.4,
          ))
    | inr kept ↦
        rw (over, kept)
          (ground (
            arith,
            over,
            kept,
            bv.0,
            bs.0,
            c.1,
            unlink-page e.end es hi va stop x gone c.4 bv.1 bs.1,
            page_at-cons e es x,
            page_at-cons e (unlink es va stop gone).0 x,
          ))
  ]
]

unlink-IsChain :
    (lo : ℕ) (es : List Entry) (hi va stop : ℕ) (gone : List Entry)
    → IsChain lo es hi
    → IsChain lo (unlink es va stop gone).0 hi
unfolding unlink
unlink-IsChain lo [] hi va stop gone c = c
unlink-IsChain lo (e ∷ es) hi va stop gone c = elim (Bool-cases (leb stop e.start)) [
  | inl past ↦ rw past c
  | inr over ↦ elim (Bool-cases (leb va e.start && leb e.end stop)) [
    | inl taken ↦
        rw (over, taken)
          (IsChain-down lo e.end _ hi (omega (arith, c.0, c.1))
            (unlink-IsChain e.end es hi va stop (e ∷ gone) c.4))
    | inr kept ↦ rw (over, kept) (c.0, c.1, c.2, c.3, unlink-IsChain e.end es hi va stop gone c.4)
  ]
]

length-unlink :
    (es : List Entry) (va stop : ℕ) (gone : List Entry)
    → length (unlink es va stop gone).0 + length (unlink es va stop gone).1
      ≡ length es + length gone
unfolding unlink
length-unlink [] va stop gone = omega arith
length-unlink (e ∷ es) va stop gone = elim (Bool-cases (leb stop e.start)) [
  | inl past ↦ rw past (omega arith)
  | inr over ↦ elim (Bool-cases (leb va e.start && leb e.end stop)) [
    | inl taken ↦ rw (over, taken) (omega (arith, length-unlink es va stop (e ∷ gone)))
    | inr kept ↦ rw (over, kept) (omega (arith, length-unlink es va stop gone))
  ]
]

-- What removing [va, stop) leaves.
pub record Removed (m q : VmMap) (va stop : ℕ) : Type 0 where
  pub valid : IsValid q
  pub same_window : (q.lo ≡ m.lo) × (q.hi ≡ m.hi) × (q.hint ≡ m.hint)
  pub pages :
      (x : ℕ) → page_at q.entries x ≡ (if inside va stop x then none else page_at m.entries x)

-- In a valid map, for a range that is not empty, does not wrap and has entry boundaries at both
-- ends, vm_map_remove takes the pages of the range out, keeps all others and reports the number of
-- entries that went.
pub remove-Removed :
    (m : VmMap) (objs : Objects) (va size : ℕ)
    → IsValid m
    → 0 < size
    → va + size < 2 ^ 64
    → IsBoundary va m.entries
    → IsBoundary (va + size) m.entries
    → Removed m (remove m objs va size).1 va (va + size)
      × ((remove m objs va size).1.count + (remove m objs va size).0 ≡ m.count)
unfolding remove
remove-Removed m objs va size v pos small bv bs =
    let nonzero : (size == 0) ≡ false = ground arith in
    let sum : add64 va size ≡ va + size = omega arith in
    rw (nonzero, sum)
      (
        record {
          valid = record {
            chain = chain;
            hi_small = v.hi_small;
            hi_aligned = v.hi_aligned;
            lo_aligned = v.lo_aligned;
            hint_aligned = v.hint_aligned;
            hint_in = v.hint_in;
            counted = omega (arith, count_left);
          };
          same_window = (refl, refl, refl);
          pages = λ x. unlink-page m.lo m.entries m.hi va (va + size) x [] v.chain bv bs;
        },
        omega (arith, count_left, len, v.counted),
      )
  where
    parts : List Entry × List Entry
    parts = unlink m.entries va (va + size) []

    chain : IsChain m.lo parts.0 m.hi
    chain = unlink-IsChain m.lo m.entries m.hi va (va + size) [] v.chain

    len : length parts.0 + length parts.1 ≡ length m.entries
    len = omega (arith, length-unlink m.entries va (va + size) [])

    count_left : sub64 m.count (length parts.1) ≡ length parts.0
    count_left = omega (arith, len, v.counted, length-le m.lo m.entries m.hi v.chain, v.hi_small)
