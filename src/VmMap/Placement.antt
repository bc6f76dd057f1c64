-- ===== src/VmMap/Placement.antt =====
-- vm_map_find_space and then vm_map_enter, as the callers of mmap put them together.
use style9_os.Base.{
  ℕ, ◌+◌, ◌^◌, ◌≤◌, ◌<◌, ◌≡◌, refl, sym, subst, true, Option, none, some, arith, round_up,
}
use mathlib.Core.Option.{some-injective}
use style9_os.VmMap.{VmMap, Prot, Flags, new_entry, enter, enter_backed, find_space}
use style9_os.VmMap.Invariant.{IsValid}
use style9_os.VmMap.Enter.{Entered, enter_backed-Entered}
use style9_os.VmMap.Space.{SpaceFound, space, full, find_space-SpaceFound}

-- In a valid map whose floor is above 0, and for a size that overflows nothing, the hole that
-- vm_map_find_space answers can be entered at once, given memory for the entry.
pub enter-find_space :
    (m q : VmMap) (size va : ℕ) (prot : Prot) (flags : Flags)
    → IsValid m
    → 0 < m.lo
    → 0 < size
    → m.hi + size + 4096 < 2 ^ 64
    → find_space m size ≡ some (va, q)
    → Entered q
        (new_entry va (round_up size) prot flags none 0)
        (enter true q va (round_up size) prot flags)
unfolding enter
enter-find_space m q size va prot flags v low pos small e =
    go (find_space m size) (find_space-SpaceFound m size v low pos small) e
  where
    go :
        (r : Option (ℕ × VmMap))
        → SpaceFound m (round_up size) r
        → r ≡ some (va, q)
        → Entered q
            (new_entry va (round_up size) prot flags none 0)
            (enter true q va (round_up size) prot flags)
    go none (full f) e = cc
    go (some (va', q')) (space va'' q'' lo hi al hole valid same) e =
        subst
          (λ r.
            Entered r.1 (new_entry r.0 (round_up size) prot flags none 0)
              (enter_backed true r.1 r.0 (round_up size) prot flags none 0))
          (some-injective _ _ e)
          (enter_backed-Entered true q' va' (round_up size) prot flags none 0 valid (record {
            fits = record {
              nonempty = omega arith;
              va_aligned = al;
              size_aligned = omega arith;
              above = subst (λ l. l ≤ va') (sym same.1) lo;
              below = subst (λ h. va' + round_up size ≤ h) (sym same.2) hi;
            };
            memory = refl;
            hole = hole;
          }))
