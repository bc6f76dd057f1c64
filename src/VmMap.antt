-- ===== src/VmMap.antt =====
-- vm/vm.c: a task's address map. The linked list of entries is a list in the same order; an entry on
-- it is known by its start, as no two share one. Whether kmalloc had memory is an argument, `mem`.
-- The flags and the protection byte are their named bits. vm_lock is held throughout each function
-- here, so each is one step.
pub mod Chain
pub mod Lookup
pub mod Enter
pub mod Cut
pub mod Unlink
pub mod Space
pub mod Placement
pub mod Invariant
mod Tests
use style9_os.Base.{
  ℕ, zero, suc, ◌+◌, ◌-◌, ◌*◌, ◌/◌, ◌%◌, ◌^◌, ◌≡◌, Bool, true, false, not, ◌&&◌, ◌||◌, Option, none,
  some, List, [], ◌∷◌, ltb, leb, ◌==◌, if◌then◌else◌, length, add64, sub64, round_up,
}
use style9_os.VmObject.{Objects, ref, deref}

-- VM_PROT_READ, _WRITE, _EXEC and _USER
pub record Prot : Type 0 where
  pub read : Bool
  pub write : Bool
  pub exec : Bool
  pub user : Bool

-- VME_F_ANON, VME_F_COW and VME_F_LAZY
pub record Flags : Type 0 where
  pub anon : Bool
  pub cow : Bool
  pub lazy : Bool

pub record Entry : Type 0 where
  pub start : ℕ
  pub end : ℕ
  pub offset : ℕ
  pub object : Option ℕ
  pub prot : Prot
  pub flags : Flags

pub record VmMap : Type 0 where
  pub lo : ℕ
  pub hi : ℕ
  pub hint : ℕ
  pub entries : List Entry
  pub count : ℕ

abbrev is_aligned : ℕ → Bool
is_aligned x = x % 4096 == 0

unfoldable pub create : Bool → ℕ → ℕ → Option VmMap
create mem lo hi =
    if leb hi lo || not (is_aligned lo) || not (is_aligned hi)
    then none
    else if mem
    then some (record { lo = lo; hi = hi; hint = lo; entries = []; count = 0 })
    else none

unfoldable pub range_free_locked : List Entry → ℕ → ℕ → Bool
range_free_locked [] va size = true
range_free_locked (e ∷ es) va size =
    if leb (add64 va size) e.start
    then true
    else if leb e.end va
    then range_free_locked es va size
    else false

-- the place of a new entry: before the first whose start is not below its own
unfoldable pub insert_sorted : Entry → List Entry → List Entry
insert_sorted ne [] = ne ∷ []
insert_sorted ne (e ∷ es) = if ltb e.start ne.start then e ∷ insert_sorted ne es else ne ∷ e ∷ es

-- the argument checks of vm_map_enter_backed
unfoldable pub accepts : VmMap → ℕ → ℕ → Bool
accepts m va size =
    if size == 0
    then false
    else if not (is_aligned va) || not (is_aligned size)
    then false
    else if leb (add64 va size) va
    then false
    else not (ltb va m.lo || ltb m.hi (add64 va size))

abbrev pub new_entry : ℕ → ℕ → Prot → Flags → Option ℕ → ℕ → Entry
new_entry va size prot flags object offset = record {
  start = va;
  end = add64 va size;
  offset = offset;
  object = object;
  prot = prot;
  flags = flags;
}

unfoldable pub enter_backed : Bool → VmMap → ℕ → ℕ → Prot → Flags → Option ℕ → ℕ → Bool × VmMap
enter_backed mem m va size prot flags object offset =
    if not (accepts m va size)
    then (false, m)
    else if not mem
    then (false, m)
    else if not (range_free_locked m.entries va size)
    then (false, m)
    else (
      true,
      record m {
        entries = insert_sorted (new_entry va size prot flags object offset) m.entries;
        count = add64 m.count 1;
      },
    )

unfoldable pub enter : Bool → VmMap → ℕ → ℕ → Prot → Flags → Bool × VmMap
enter mem m va size prot flags = enter_backed mem m va size prot flags none 0

unfoldable pub lookup : List Entry → ℕ → Option Entry
lookup [] va = none
lookup (e ∷ es) va = if ltb va e.start then none else if ltb va e.end then some e else lookup es va

-- the two halves of an entry cut at `at`
abbrev pub front_half : Entry → ℕ → Entry
front_half e at = record e { end = at }

abbrev pub back_half : Entry → ℕ → Entry
back_half e at = record e { start = at; offset = add64 e.offset (at - e.start) }

-- the entry that starts at `s` replaced by its halves
unfoldable pub cut : List Entry → ℕ → ℕ → List Entry
cut [] s at = []
cut (e ∷ es) s at = if e.start == s then front_half e at ∷ back_half e at ∷ es else e ∷ cut es s at

-- The map with the reference counts of the objects that its entries name. `none` is a failed KASSERT.
unfoldable pub split_locked : Bool → VmMap → Objects → Entry → ℕ → Option (Bool × VmMap × Objects)
split_locked mem m objs e at =
    if not (ltb e.start at && ltb at e.end) || not (is_aligned at)
    then none
    else if not mem
    then some (false, m, objs)
    else some (
      true,
      record m { entries = cut m.entries e.start at; count = add64 m.count 1 },
      ref objs e.object,
    )

unfoldable pub clip_locked : Bool → VmMap → Objects → ℕ → Option (Bool × VmMap × Objects)
clip_locked mem m objs at = elim (lookup m.entries at) [
  | none ↦ some (true, m, objs)
  | some e ↦ if e.start == at then some (true, m, objs) else split_locked mem m objs e at
]

-- The unlinking loop of vm_map_remove: what stays, and what is taken out, newest first.
unfoldable pub unlink : List Entry → ℕ → ℕ → List Entry → List Entry × List Entry
unlink [] va end gone = ([], gone)
unlink (e ∷ es) va end gone =
    let taken = unlink es va end (e ∷ gone) in
    let (kept, rest) = unlink es va end gone in
    if leb end e.start
    then (e ∷ es, gone)
    else if leb va e.start && leb e.end end
    then taken
    else (e ∷ kept, rest)

-- entry_free of each entry in turn
unfoldable pub free_entries : Objects → List Entry → Objects
free_entries objs [] = objs
free_entries objs (e ∷ es) = free_entries (deref objs e.object) es

unfoldable pub remove : VmMap → Objects → ℕ → ℕ → ℕ × VmMap × Objects
remove m objs va size =
    let (kept, gone) = unlink m.entries va (add64 va size) [] in
    if size == 0 then (0, m, objs) else (
      length gone,
      record m { entries = kept; count = sub64 m.count (length gone) },
      free_entries objs gone,
    )

-- vm_map_reset, and what vm_map_destroy does to the objects
unfoldable pub reset : VmMap → Objects → VmMap × Objects
reset m objs = (record m { entries = []; count = 0; hint = m.lo }, free_entries objs m.entries)

-- The loop of vm_hole_locked: the cursor slides past each obstacle.
unfoldable pub slide : List Entry → ℕ → ℕ → ℕ
slide [] size cur = cur
slide (e ∷ es) size cur =
    let next = if leb e.end cur then cur else e.end in
    let rest = slide es size next in
    if leb e.end cur then rest else if leb (add64 cur size) e.start then cur else rest

unfoldable pub hole_locked : VmMap → ℕ → ℕ → ℕ
hole_locked m size from =
    let cur = slide m.entries size (if ltb from m.lo then m.lo else from) in
    if ltb m.hi (add64 cur size) then 0 else cur

-- The address found, in a map whose hint has moved past it.
unfoldable pub find_space : VmMap → ℕ → Option (ℕ × VmMap)
find_space m size0 =
    let size = round_up size0 in
    let first = hole_locked m size m.hint in
    let va = if first == 0 && ltb m.lo m.hint then hole_locked m size m.lo else first in
    if size0 == 0
    then none
    else if va == 0
    then none
    else some (va, record m { hint = add64 va size })

-- The first walk of vm_map_release: how far the range is covered by anonymous entries without a
-- hole, and whether an entry sticks out of it.
unfoldable pub coverage : List Entry → ℕ → ℕ → ℕ → Bool → ℕ × Bool
coverage [] va end covered sticks = (covered, sticks)
coverage (e ∷ es) va end covered sticks =
    let skip = coverage es va end covered sticks in
    let go = coverage es va end e.end (sticks || ltb e.start va || ltb end e.end) in
    if leb end covered
    then (covered, sticks)
    else if leb e.end covered
    then skip
    else if ltb covered e.start
    then (covered, sticks)
    else if not e.flags.anon
    then (covered, sticks)
    else go

-- what vm_map_snapshot copies out of each entry
pub record Region : Type 0 where
  pub region_start : ℕ
  pub region_end : ℕ
  pub region_offset : ℕ
  pub region_prot : Prot
  pub region_flags : Flags

unfoldable pub snapshot : ℕ → List Entry → List Region
snapshot zero es = []
snapshot (suc n) [] = []
snapshot (suc n) (e ∷ es) =
    record {
      region_start = e.start;
      region_end = e.end;
      region_offset = e.offset;
      region_prot = e.prot;
      region_flags = e.flags;
    }
    ∷ snapshot n es
