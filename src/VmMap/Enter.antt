-- ===== src/VmMap/Enter.antt =====
-- vm_map_enter_backed: when it records a range, and what the map then says of every address.
use style9_os.Base.{
  ℕ, ◌+◌, ◌-◌, ◌%◌, ◌^◌, ◌≤◌, ◌<◌, ◌≡◌, refl, ap, Bool, true, false, Option, some, List, [], ◌∷◌,
  if◌then◌else◌, Bool-cases, ◌⊎◌, inl, inr, arith, length, add64,
}
use style9_os.VmMap.{
  VmMap, Entry, Prot, Flags, lookup, insert_sorted, range_free_locked, accepts, new_entry,
  enter_backed,
}
use style9_os.VmMap.Chain.{IsChain}
use style9_os.VmMap.Lookup.{
  covers, IsHole, range_free-IsHole, hole_range_free, lookup-insert_sorted, insert_sorted-IsChain,
}
use style9_os.VmMap.Invariant.{IsValid, length-le}

-- A range that a map can hold: aligned, not empty, and inside the map's window.
pub record Fits (m : VmMap) (va size : ℕ) : Type 0 where
  pub nonempty : 0 < size
  pub va_aligned : va % 4096 ≡ 0
  pub size_aligned : size % 4096 ≡ 0
  pub above : m.lo ≤ va
  pub below : va + size ≤ m.hi

accepts-Fits :
    (m : VmMap) (va size : ℕ)
    → m.hi < 2 ^ 64
    → va < 2 ^ 64
    → size < 2 ^ 64
    → accepts m va size ≡ true
    → Fits m va size
unfolding accepts
accepts-Fits m va size hm hv hs e = ground arith

Fits-accepts : (m : VmMap) (va size : ℕ) → m.hi < 2 ^ 64 → Fits m va size → accepts m va size ≡ true
unfolding accepts
Fits-accepts m va size hm f = ground arith

-- `r` is what entering the range in `m` gives: every address of the range is found in the new entry,
-- and every other as before.
pub record Entered (m : VmMap) (ne : Entry) (r : Bool × VmMap) : Type 0 where
  pub succeeds : r.0 ≡ true
  pub valid : IsValid r.1
  pub found : (x : ℕ) → lookup r.1.entries x ≡ (if covers ne x then some ne else lookup m.entries x)
  pub same_window : (r.1.lo ≡ m.lo) × (r.1.hi ≡ m.hi) × (r.1.hint ≡ m.hint)
  pub one_more : r.1.count ≡ m.count + 1

length-insert_sorted : (ne : Entry) (es : List Entry) → length (insert_sorted ne es) ≡ length es + 1
unfolding insert_sorted
length-insert_sorted ne [] = omega arith
length-insert_sorted ne (e ∷ es) = ground (arith, length-insert_sorted ne es)

-- the map with a new entry in its place
with_entry : VmMap → Entry → VmMap
with_entry m ne = record m { entries = insert_sorted ne m.entries; count = add64 m.count 1 }

with_entry-Entered :
    (m : VmMap) (ne : Entry)
    → IsValid m
    → Fits m ne.start (ne.end - ne.start)
    → ne.start < ne.end
    → IsHole m.entries ne.start ne.end
    → Entered m ne (true, with_entry m ne)
unfolding with_entry
with_entry-Entered m ne v f pos hole =
    let chain : IsChain m.lo (insert_sorted ne m.entries) m.hi =
      insert_sorted-IsChain ne m.lo m.entries m.hi v.chain pos f.va_aligned
        (omega (arith, f.va_aligned, f.size_aligned)) f.above (omega (arith, f.below)) hole in
    let counted : add64 m.count 1 ≡ length (insert_sorted ne m.entries) = omega (
      arith,
      v.counted,
      v.hi_small,
      length-insert_sorted ne m.entries,
      length-le m.lo (insert_sorted ne m.entries) m.hi chain,
    ) in
    record {
      succeeds = refl;
      valid = record {
        chain = chain;
        hi_small = v.hi_small;
        hi_aligned = v.hi_aligned;
        lo_aligned = v.lo_aligned;
        hint_aligned = v.hint_aligned;
        hint_in = v.hint_in;
        counted = counted;
      };
      found = λ x. lookup-insert_sorted ne m.lo m.entries m.hi x v.chain pos hole;
      same_window = (refl, refl, refl);
      one_more = omega (arith, counted, length-insert_sorted ne m.entries, v.counted);
    }

-- The conditions under which a range is recorded: it fits, there is memory for the entry, and no
-- entry covers any of it.
pub record CanEnter (mem : Bool) (m : VmMap) (va size : ℕ) : Type 0 where
  pub fits : Fits m va size
  pub memory : mem ≡ true
  pub hole : IsHole m.entries va (va + size)

module _ (mem : Bool) (m : VmMap) (va size : ℕ) (prot : Prot) (flags : Flags) (object : Option ℕ)
    (offset : ℕ) (v : IsValid m) where
  -- Where it can be, the range is recorded.
  pub enter_backed-Entered :
      CanEnter mem m va size
      → Entered m
          (new_entry va size prot flags object offset)
          (enter_backed mem m va size prot flags object offset)
  unfolding enter_backed with_entry
  enter_backed-Entered can =
      let f = can.fits in
      let small : va + size < 2 ^ 64 = omega (arith, f.below, v.hi_small) in
      let sum : add64 va size ≡ va + size = omega arith in
      rw
        (
          Fits-accepts m va size v.hi_small f,
          can.memory,
          hole_range_free m.lo m.entries m.hi va size v.chain small f.nonempty can.hole,
        )
        (with_entry-Entered m (new_entry va size prot flags object offset) v
          (record {
            nonempty = omega (arith, f.nonempty);
            va_aligned = f.va_aligned;
            size_aligned = omega (arith, f.size_aligned);
            above = f.above;
            below = omega (arith, f.below);
          })
          (omega (arith, f.nonempty)) (λ x l u. can.hole x l (omega arith)))

  -- The code records the range only where it can be.
  enter_backed_success :
      va < 2 ^ 64
      → size < 2 ^ 64
      → (CanEnter mem m va size)
        ⊎ (enter_backed mem m va size prot flags object offset ≡ (false, m))
  unfolding enter_backed
  enter_backed_success hv hs = elim (Bool-cases (accepts m va size)) [
    | inr e ↦ inr (rw e)
    | inl e ↦
        let f = accepts-Fits m va size v.hi_small hv hs e in
        elim (Bool-cases mem) [
          | inr e' ↦ inr (rw (e, e'))
          | inl e' ↦ elim (Bool-cases (range_free_locked m.entries va size)) [
            | inr e'' ↦ inr (rw (e, e', e''))
            | inl e'' ↦ inl (record {
              fits = f;
              memory = e';
              hole =
                  range_free-IsHole m.lo m.entries m.hi va size v.chain
                    (omega (arith, f.below, v.hi_small)) e'';
            })
          ]
        ]
  ]

  -- In a valid map, for an address and a size of 64 bits, vm_map_enter_backed records the range
  -- exactly when it fits the window, there is memory and no entry overlaps it; otherwise it fails
  -- and changes nothing.
  pub enter_backed_cases :
      va < 2 ^ 64
      → size < 2 ^ 64
      → (CanEnter mem m va size
          × Entered m
              (new_entry va size prot flags object offset)
              (enter_backed mem m va size prot flags object offset))
        ⊎ ((¬ CanEnter mem m va size)
            × (enter_backed mem m va size prot flags object offset ≡ (false, m)))
  enter_backed_cases hv hs = elim (enter_backed_success hv hs) [
    | inl can ↦ inl (can, enter_backed-Entered can)
    | inr e ↦ inr (λ can. cc (ap (λ r. r.0) e, (enter_backed-Entered can).succeeds), e)
  ]
