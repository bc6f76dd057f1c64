-- ===== src/VmMap/Tests.antt =====
-- vm/vm.c at one user map, which has one anonymous entry of three pages at the bottom of its window.
use style9_os.Base.{
  ◌+◌, ◌<◌, ◌≡◌, refl, ◌⊎◌, length, inl, inr, true, false, none, some, [], ◌∷◌, arith, round_up,
}
use style9_os.VmObject.{Objects, ref}
use style9_os.VmMap.{
  Entry, VmMap, Prot, Flags, create, enter, enter_backed, new_entry, lookup, cut, clip_locked,
  remove, find_space, hole_locked, slide,
}
use style9_os.VmMap.Invariant.{IsValid, IsWindow, create_cases}
use style9_os.VmMap.Enter.{CanEnter, Entered, enter_backed_cases}
use style9_os.VmMap.Cut.{Clipped, IsBoundary, clip_locked_cases}
use style9_os.VmMap.Unlink.{Removed, remove-Removed}
use style9_os.VmMap.Space.{SpaceFound, find_space-SpaceFound}
use style9_os.VmMap.Placement.{enter-find_space}

abbrev rw_user : Prot
rw_user = record { read = true; write = true; exec = false; user = true }

abbrev anonymous : Flags
anonymous = record { anon = true; cow = false; lazy = false }

abbrev heap : Entry
heap = record {
  start = 0x40000000;
  end = 0x40003000;
  offset = 0;
  object = none;
  prot = rw_user;
  flags = anonymous;
}

abbrev user_map : VmMap
user_map = record {
  lo = 0x40000000;
  hi = 0x80000000;
  hint = 0x40000000;
  entries = heap ∷ [];
  count = 1;
}

abbrev objects : Objects
objects = record { refs = λ o. 1; closed = [] }

user_map-IsValid : IsValid user_map
user_map-IsValid = record {
  chain = (omega arith, omega arith, refl, refl, omega arith);
  hi_small = omega arith;
  hi_aligned = refl;
  lo_aligned = refl;
  hint_aligned = refl;
  hint_in = omega arith;
  counted = refl;
}

create_cases_example :
    (IsWindow 0x40000000 0x80000000
      × (true ≡ true)
      × ((m : VmMap) × (create true 0x40000000 0x80000000 ≡ some m)
          × IsValid m
          × (m.entries ≡ [])
          × (m.lo ≡ 0x40000000)
          × (m.hi ≡ 0x80000000)))
    ⊎ (((¬ IsWindow 0x40000000 0x80000000) ⊎ (true ≡ false))
        × (create true 0x40000000 0x80000000 ≡ none))
create_cases_example = create_cases true 0x40000000 0x80000000 (omega arith)

enter_backed_cases_example :
    (CanEnter true user_map 0x50000000 0x2000
      × Entered user_map
          (new_entry 0x50000000 0x2000 rw_user anonymous none 0)
          (enter_backed true user_map 0x50000000 0x2000 rw_user anonymous none 0))
    ⊎ ((¬ CanEnter true user_map 0x50000000 0x2000)
        × (enter_backed true user_map 0x50000000 0x2000 rw_user anonymous none 0
            ≡ (false, user_map)))
enter_backed_cases_example =
    enter_backed_cases true user_map 0x50000000 0x2000 rw_user anonymous none 0 user_map-IsValid
      (omega arith) (omega arith)

clip_locked_cases_example :
    (((lookup user_map.entries 0x40001000 ≡ none)
        ⊎ ((e : Entry) × (lookup user_map.entries 0x40001000 ≡ some e) × (e.start ≡ 0x40001000)))
      × (clip_locked true user_map objects 0x40001000 ≡ some (true, user_map, objects))
      × IsBoundary 0x40001000 user_map.entries)
    ⊎ ((e : Entry) × (lookup user_map.entries 0x40001000 ≡ some e)
        × (e.start < 0x40001000)
        × (((true ≡ true)
              × ((q : VmMap) × (clip_locked true user_map objects 0x40001000
                    ≡ some (true, q, ref objects e.object))
                  × Clipped user_map q 0x40001000
                  × (q.entries ≡ cut user_map.entries e.start 0x40001000)
                  × (length q.entries ≡ length user_map.entries + 1)))
            ⊎ ((true ≡ false)
                × (clip_locked true user_map objects 0x40001000
                    ≡ some (false, user_map, objects)))))
clip_locked_cases_example = clip_locked_cases true user_map objects 0x40001000 user_map-IsValid refl

remove-Removed_example :
    Removed user_map (remove user_map objects 0x40000000 0x3000).1 0x40000000 (0x40000000 + 0x3000)
    × ((remove user_map objects 0x40000000 0x3000).1.count
          + (remove user_map objects 0x40000000 0x3000).0
        ≡ user_map.count)
remove-Removed_example =
    remove-Removed user_map objects 0x40000000 0x3000 user_map-IsValid (omega arith) (omega arith)
      (inl (omega arith), tt) (inr (omega arith), tt)

find_space-SpaceFound_example : SpaceFound user_map (round_up 5000) (find_space user_map 5000)
find_space-SpaceFound_example =
    find_space-SpaceFound user_map 5000 user_map-IsValid (omega arith) (omega arith) (omega arith)

abbrev searched_map : VmMap
searched_map = record user_map { hint = 0x40005000 }

user_map_space : find_space user_map 5000 ≡ some (0x40003000, searched_map)
unfolding find_space hole_locked slide
user_map_space = refl

enter-find_space_example :
    Entered searched_map
      (new_entry 0x40003000 (round_up 5000) rw_user anonymous none 0)
      (enter true searched_map 0x40003000 (round_up 5000) rw_user anonymous)
enter-find_space_example =
    enter-find_space user_map searched_map 5000 0x40003000 rw_user anonymous user_map-IsValid
      (omega arith) (omega arith) (omega arith) user_map_space
