-- ===== src/VmMap/Chain.antt =====
-- The order of a map's entries, and where a lookup in it can land.
use style9_os.Base.{ℕ, ◌%◌, ◌≤◌, ◌<◌, ◌≡◌, refl, none, some, List, [], ◌∷◌, arith}
use style9_os.VmMap.{Entry, lookup}

-- Page-aligned entries that are not empty, in order, without overlap, from `lo` up to `hi`.
abbrev pub IsChain : ℕ → List Entry → ℕ → Type 0
IsChain lo [] hi = lo ≤ hi
IsChain lo (e ∷ es) hi =
    (lo ≤ e.start)
    × (e.start < e.end)
    × (e.start % 4096 ≡ 0)
    × (e.end % 4096 ≡ 0)
    × IsChain e.end es hi

pub IsChain-le : (lo : ℕ) (es : List Entry) (hi : ℕ) → IsChain lo es hi → lo ≤ hi
IsChain-le lo [] hi c = c
IsChain-le lo (e ∷ es) hi c = omega (arith, c.0, c.1, IsChain-le e.end es hi c.4)

pub IsChain-down :
    (lo' lo : ℕ) (es : List Entry) (hi : ℕ) → lo' ≤ lo → IsChain lo es hi → IsChain lo' es hi
IsChain-down lo' lo [] hi h c = omega arith
IsChain-down lo' lo (e ∷ es) hi h c = (omega arith, c.1, c.2, c.3, c.4)

-- Nothing is found below the chain or at and above its top.
pub lookup_below :
    (lo : ℕ) (es : List Entry) (hi va : ℕ) → IsChain lo es hi → va < lo → lookup es va ≡ none
unfolding lookup
lookup_below lo [] hi va c h = refl
lookup_below lo (e ∷ es) hi va c h = ground (arith, c.0)

pub lookup_above :
    (lo : ℕ) (es : List Entry) (hi va : ℕ) → IsChain lo es hi → hi ≤ va → lookup es va ≡ none
unfolding lookup
lookup_above lo [] hi va c h = refl
lookup_above lo (e ∷ es) hi va c h =
    ground (arith, c.0, c.1, lookup_above e.end es hi va c.4 h, IsChain-le e.end es hi c.4)

-- An entry that is found covers the address and lies inside the chain.
pub lookup_covers :
    (lo : ℕ) (es : List Entry) (hi va : ℕ) (e : Entry)
    → IsChain lo es hi
    → lookup es va ≡ some e
    → (lo ≤ e.start) × (e.start ≤ va) × (va < e.end) × (e.end ≤ hi) × (e.start % 4096 ≡ 0)
unfolding lookup
lookup_covers lo [] hi va e c h = cc
lookup_covers lo (x ∷ es) hi va e c h =
    ground (arith, lookup_covers x.end es hi va e c.4, IsChain-le x.end es hi c.4)
