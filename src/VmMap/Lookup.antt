-- ===== src/VmMap/Lookup.antt =====
-- What an address is backed by, and how entering a range changes it.
use mathlib.Core.Option
use style9_os.Base.{
  ℕ, ◌+◌, ◌-◌, ◌%◌, ◌^◌, ◌≤◌, ◌<◌, ◌≡◌, refl, Bool, true, false, ◌&&◌, Option, none, some, List, [],
  ◌∷◌, ltb, leb, if◌then◌else◌, Bool-cases, ◌⊎◌, inl, inr, arith, add64,
}
use style9_os.VmMap.{Entry, Prot, Flags, lookup, insert_sorted, range_free_locked}
use style9_os.VmMap.Chain.{IsChain, lookup_below}

-- the entry covers the address
abbrev pub covers : Entry → ℕ → Bool
covers e x = leb e.start x && ltb x e.end

-- What a page of a mapping holds and allows: the object and the offset in it, and the permissions.
pub record Page : Type 0 where
  pub object : Option ℕ
  pub object_offset : ℕ
  pub prot : Prot
  pub flags : Flags

abbrev pub page_in : Entry → ℕ → Page
page_in e x = record {
  object = e.object;
  object_offset = add64 e.offset (x - e.start);
  prot = e.prot;
  flags = e.flags;
}

unfoldable pub page_at : List Entry → ℕ → Option Page
page_at es x = Option.map (λ e. page_in e x) (lookup es x)

pub page_at-cons :
    (e : Entry) (es : List Entry) (x : ℕ)
    → page_at (e ∷ es) x
      ≡ (if ltb x e.start then none else if ltb x e.end then some (page_in e x) else page_at es x)
unfolding page_at lookup
page_at-cons e es x = elim (Bool-cases (ltb x e.start)) [
  | inl low ↦ rw low
  | inr high ↦ elim (Bool-cases (ltb x e.end)) [
    | inl inside ↦ rw (high, inside)
    | inr past ↦ rw (high, past)
  ]
]

-- no entry covers an address of [va, stop)
abbrev pub IsHole : List Entry → ℕ → ℕ → Type 0
IsHole es va stop = (x : ℕ) → va ≤ x → x < stop → lookup es x ≡ none

-- The overlap test of vm_map_enter_backed answers yes exactly on a hole.
pub range_free-IsHole :
    (lo : ℕ) (es : List Entry) (hi va size : ℕ)
    → IsChain lo es hi
    → va + size < 2 ^ 64
    → range_free_locked es va size ≡ true
    → IsHole es va (va + size)
unfolding range_free_locked lookup
range_free-IsHole lo [] hi va size c small h x l u = refl
range_free-IsHole lo (e ∷ es) hi va size c small h x l u = ground (
  arith,
  λ (f : range_free_locked es va size ≡ true).
      range_free-IsHole e.end es hi va size c.4 small f x l u,
)

-- A hole lies wholly before or wholly behind the first entry, and stays one without it.
pub IsHole-head :
    (lo : ℕ) (e : Entry) (es : List Entry) (hi va stop : ℕ)
    → IsChain lo (e ∷ es) hi
    → va < stop
    → IsHole (e ∷ es) va stop
    → (stop ≤ e.start) ⊎ (e.end ≤ va)
unfolding lookup
IsHole-head lo e es hi va stop c pos h = elim (Bool-cases (leb stop e.start)) [
  | inl before ↦ inl (ground arith)
  | inr over ↦ elim (Bool-cases (leb e.end va)) [
    | inl behind ↦ inr (ground arith)
    | inr under ↦ elim (Bool-cases (ltb va e.start)) [
      | inl low ↦ absurd (ground (arith, h e.start (ground arith) (ground arith), c.1))
      | inr high ↦ absurd (ground (arith, h va (omega arith) (omega arith)))
    ]
  ]
]

pub IsHole-tail :
    (lo : ℕ) (e : Entry) (es : List Entry) (hi va stop : ℕ)
    → IsChain lo (e ∷ es) hi
    → IsHole (e ∷ es) va stop
    → IsHole es va stop
unfolding lookup
IsHole-tail lo e es hi va stop c h x l u =
    ground (arith, h x l u, c.1, lookup_below e.end es hi x c.4)

pub hole_range_free :
    (lo : ℕ) (es : List Entry) (hi va size : ℕ)
    → IsChain lo es hi
    → va + size < 2 ^ 64
    → 0 < size
    → IsHole es va (va + size)
    → range_free_locked es va size ≡ true
unfolding range_free_locked lookup
hole_range_free lo [] hi va size c small pos h = refl
hole_range_free lo (e ∷ es) hi va size c small pos h = ground (
  arith,
  IsHole-head lo e es hi va (va + size) c (omega arith) h,
  hole_range_free e.end es hi va size c.4 small pos (IsHole-tail lo e es hi va (va + size) c h),
)

pub lookup-insert_sorted :
    (ne : Entry) (lo : ℕ) (es : List Entry) (hi x : ℕ)
    → IsChain lo es hi
    → ne.start < ne.end
    → IsHole es ne.start ne.end
    → lookup (insert_sorted ne es) x ≡ (if covers ne x then some ne else lookup es x)
unfolding lookup insert_sorted
lookup-insert_sorted ne lo [] hi x c pos hole = ground arith
lookup-insert_sorted ne lo (e ∷ es) hi x c pos hole = elim (Bool-cases (ltb e.start ne.start)) [
  | inl below ↦ rw below (
      ground (
        arith,
        below,
        IsHole-head lo e es hi ne.start ne.end c pos hole,
        lookup-insert_sorted ne e.end es hi x c.4 pos
            (IsHole-tail lo e es hi ne.start ne.end c hole),
      ))
  | inr above ↦
      rw above (ground (arith, above, c.1, IsHole-head lo e es hi ne.start ne.end c pos hole))
]

pub insert_sorted-IsChain :
    (ne : Entry) (lo : ℕ) (es : List Entry) (hi : ℕ)
    → IsChain lo es hi
    → ne.start < ne.end
    → ne.start % 4096 ≡ 0
    → ne.end % 4096 ≡ 0
    → lo ≤ ne.start
    → ne.end ≤ hi
    → IsHole es ne.start ne.end
    → IsChain lo (insert_sorted ne es) hi
unfolding insert_sorted lookup
insert_sorted-IsChain ne lo [] hi c pos a b l u hole = (l, pos, a, b, u)
insert_sorted-IsChain ne lo (e ∷ es) hi c pos a b l u hole =
    elim (IsHole-head lo e es hi ne.start ne.end c pos hole) [
      | inl before ↦ rw (not_below before) (l, pos, a, b, (before, c.1, c.2, c.3, c.4))
      | inr behind ↦ rw (below behind) (
        c.0,
        c.1,
        c.2,
        c.3,
        insert_sorted-IsChain ne e.end es hi c.4 pos a b behind u
            (IsHole-tail lo e es hi ne.start ne.end c hole),
      )
    ]
  where
    not_below : ne.end ≤ e.start → ltb e.start ne.start ≡ false
    not_below h = ground arith

    below : e.end ≤ ne.start → ltb e.start ne.start ≡ true
    below h = ground (arith, c.1)
