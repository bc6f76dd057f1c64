-- ===== src/VmMap/Invariant.antt =====
-- What holds of a map between two calls.
use style9_os.Base.{
  ℕ, ◌+◌, ◌%◌, ◌^◌, ◌≤◌, ◌<◌, ◌≡◌, refl, ◌⊎◌, inl, inr, Bool-cases, ◌||◌, Bool, true, false, not,
  none, some, List, [], ◌∷◌, leb, ◌==◌, length, arith,
}
use style9_os.VmMap.{VmMap, Entry, create}
use style9_os.VmMap.Chain.{IsChain}

pub record IsValid (m : VmMap) : Type 0 where
  pub chain : IsChain m.lo m.entries m.hi
  pub hi_small : m.hi < 2 ^ 64
  pub hi_aligned : m.hi % 4096 ≡ 0
  pub lo_aligned : m.lo % 4096 ≡ 0
  pub hint_aligned : m.hint % 4096 ≡ 0
  pub hint_in : m.hint ≤ m.hi
  pub counted : m.count ≡ length m.entries

pub length-le : (lo : ℕ) (es : List Entry) (hi : ℕ) → IsChain lo es hi → lo + length es ≤ hi
length-le lo [] hi c = omega (arith, c)
length-le lo (e ∷ es) hi c = omega (arith, c.0, c.1, length-le e.end es hi c.4)

-- a window that a map can be made for
pub record IsWindow (lo hi : ℕ) : Type 0 where
  pub nonempty : lo < hi
  pub lo_aligned : lo % 4096 ≡ 0
  pub hi_aligned : hi % 4096 ≡ 0

is_window : ℕ → ℕ → Bool
is_window lo hi = not (leb hi lo || not (lo % 4096 == 0) || not (hi % 4096 == 0))

-- With memory, vm_map_create makes a valid empty map of an aligned window that is not empty and
-- ends below 2^64; for any other such window, or without memory, it fails.
pub create_cases :
    (mem : Bool) (lo hi : ℕ)
    → hi < 2 ^ 64
    → (IsWindow lo hi
        × (mem ≡ true)
        × ((m : VmMap) × (create mem lo hi ≡ some m)
            × IsValid m
            × (m.entries ≡ [])
            × (m.lo ≡ lo)
            × (m.hi ≡ hi)))
      ⊎ (((¬ IsWindow lo hi) ⊎ (mem ≡ false)) × (create mem lo hi ≡ none))
unfolding create is_window
create_cases mem lo hi small = elim (Bool-cases (is_window lo hi)) [
  | inr e ↦
      inr (inl (λ w. ground (arith, w.nonempty, w.lo_aligned, w.hi_aligned, e)), ground (arith, e))
  | inl e ↦
      let w : IsWindow lo hi = ground (arith, e) in
      elim (Bool-cases mem) [
        | inr e' ↦ inr (inr e', ground (arith, e, e'))
        | inl e' ↦ inl (w, e', (fresh, ground (arith, e, e'), fresh-IsValid w, refl, refl, refl))
      ]
]
  where
    fresh : VmMap
    fresh = record { lo = lo; hi = hi; hint = lo; entries = []; count = 0 }

    fresh-IsValid : IsWindow lo hi → IsValid fresh
    fresh-IsValid w = omega (arith, w.nonempty, w.lo_aligned, w.hi_aligned, small)
