-- ===== src/Memmap/Boot.antt =====
-- kern/memmap.c: the three parsers, over the bytes of memory, and memmap_init. An address is read as the
-- kernel reads it through its identity map; a fault is not modelled. Each loop that follows sizes found
-- in memory runs on fuel, and `none` is a loop that has not ended yet.
use style9_os.Base.{
  ℕ, zero, suc, ◌+◌, ◌*◌, ◌/◌, ◌%◌, ◌^◌, Bool, not, ◌&&◌, Option, none, some, leb, ltb, ◌==◌,
  if◌then◌else◌, sub64,
}
use style9_os.Memmap.{
  Memmap, add, e820_to_local, reserved, free, empty_map, or_default, sort, recount,
}

-- the byte at each address
abbrev pub Memory : Type 0
Memory = ℕ → ℕ

-- a little-endian uint32_t and uint64_t
unfoldable pub u32 : Memory → ℕ → ℕ
u32 mem a = (mem a + 2 ^ 8 * mem (a + 1) + 2 ^ 16 * mem (a + 2) + 2 ^ 24 * mem (a + 3)) % 2 ^ 32

unfoldable pub u64 : Memory → ℕ → ℕ
u64 mem a = u32 mem a + 2 ^ 32 * u32 mem (a + 4)

-- memmap_add of an entry with its base at `e` and its length and E820 type after it
unfoldable pub add_at : Memory → Memmap → ℕ → Memmap
add_at mem m e = add m (u64 mem e) (u64 mem (e + 8)) (e820_to_local (u32 mem (e + 16)))

-- `n` entries, `stride` bytes apart
unfoldable pub add_each : Memory → ℕ → Memmap → ℕ → ℕ → Memmap
add_each mem zero m e stride = m
add_each mem (suc n) m e stride = add_each mem n (add_at mem m e) (e + stride) stride

-- the loop over mb1_mmap_entry, whose mme_size does not count its own four bytes
unfoldable pub walk_mb1 : ℕ → Memory → Memmap → ℕ → ℕ → Option Memmap
walk_mb1 zero mem m cur end = none
walk_mb1 (suc fuel) mem m cur end =
    let rest = walk_mb1 fuel mem (add_at mem m (cur + 4)) (cur + (u32 mem cur + 4)) end in
    if ltb cur end then rest else some m

-- MB1_INFO_MEMMAP and MB1_INFO_MEMORY
abbrev pub has_memmap : ℕ → Bool
has_memmap flags = flags / 64 % 2 == 1

abbrev pub has_memory : ℕ → Bool
has_memory flags = flags % 2 == 1

unfoldable pub parse_mb1 : ℕ → Memory → Memmap → ℕ → Option Memmap
parse_mb1 fuel mem m info =
    let flags = u32 mem info in
    let cur = u32 mem (info + 48) in
    if has_memmap flags
    then walk_mb1 fuel mem m cur (cur + u32 mem (info + 44))
    else if has_memory flags
    then some (add (add m 0 0x100000 reserved) 0x100000 (u32 mem (info + 8) * 1024 % 2 ^ 64) free)
    else some m

-- mt_type, mt_size and mt_entry_size of the tag at `p`
abbrev pub tag_type : Memory → ℕ → ℕ
tag_type mem p = u32 mem p

abbrev pub tag_size : Memory → ℕ → ℕ
tag_size mem p = u32 mem (p + 4)

abbrev pub tag_entry_size : Memory → ℕ → ℕ
tag_entry_size mem p = u32 mem (p + 8)

-- `(mt_size + 7u) & ~7u`; the sum wraps.
abbrev pub tag_step : Memory → ℕ → ℕ
tag_step mem p = (tag_size mem p + 7) % 2 ^ 32 / 8 * 8

-- `(mt_size - sizeof(*mm)) / mt_entry_size`; the difference, a size_t, wraps.
abbrev pub tag_entries : Memory → ℕ → ℕ
tag_entries mem p = sub64 (tag_size mem p) 16 / tag_entry_size mem p

-- the entries of a memory map's tag, if the tag at `p` is one
unfoldable pub add_tag : Memory → Memmap → ℕ → Memmap
add_tag mem m p =
    if tag_type mem p == 6
    then add_each mem (tag_entries mem p) m (p + 16) (tag_entry_size mem p)
    else m

unfoldable pub walk_mb2 : ℕ → Memory → Memmap → ℕ → ℕ → Option Memmap
walk_mb2 zero mem m p end = none
walk_mb2 (suc fuel) mem m p end =
    let rest = walk_mb2 fuel mem (add_tag mem m p) (p + tag_step mem p) end in
    if not (leb (p + 8) end)
    then some m
    else if tag_type mem p == 0
    then some m
    else if tag_type mem p == 6 && tag_entry_size mem p == 0
    then some m
    else rest

unfoldable pub parse_mb2 : ℕ → Memory → Memmap → ℕ → Option Memmap
parse_mb2 fuel mem m info = walk_mb2 fuel mem m (info + 8) (info + u32 mem info)

-- PVH_START_MAGIC
abbrev pub pvh_magic : ℕ
pvh_magic = 0x336EC578

unfoldable pub parse_pvh : Memory → Memmap → ℕ → Memmap
parse_pvh mem m si =
    if not (u32 mem si == pvh_magic)
    then m
    else add_each mem (u32 mem (si + 48)) m (u64 mem (si + 40)) 24

-- the magics by which memmap_init tells the protocols apart; PVH's is 0
abbrev pub mb1_magic : ℕ
mb1_magic = 0x2BADB002

abbrev pub mb2_magic : ℕ
mb2_magic = 0x36D76289

-- memmap_init has built a map, or panicked, or not ended yet
pub data Started : Type 0 where
  built : Memmap → Started
  panicked : Started
  running : Started

unfoldable pub finish : Option Memmap → Started
finish none = running
finish (some m) = built (recount (sort (or_default m)))

unfoldable pub init : ℕ → Memory → ℕ → ℕ → Started
init fuel mem magic info =
    if magic == mb1_magic
    then finish (parse_mb1 fuel mem empty_map info)
    else if magic == mb2_magic
    then finish (parse_mb2 fuel mem empty_map info)
    else if magic == 0
    then finish (some (parse_pvh mem empty_map info))
    else panicked
