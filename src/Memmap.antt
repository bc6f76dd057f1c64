-- ===== src/Memmap.antt =====
-- kern/memmap.c: the boot-time memory map. The table and its three totals are the fields of `Memmap`;
-- the array is the list of its first memmap_nentries entries. Memmap/Boot.antt has the parsers of what the
-- boot loader left in memory, and memmap_init.
pub mod Boot
pub mod Walk
pub mod Insertion
pub mod Sorted
pub mod Bounds
pub mod Init
mod Tests
use style9_os.Base.{
  ℕ, zero, suc, ◌+◌, ◌-◌, ◌*◌, ◌^◌, ◌%◌, ◌≡◌, Bool, true, false, not, ◌&&◌, Option, none, some,
  List, [], ◌∷◌, ◌++◌, ltb, leb, ◌==◌, if◌then◌else◌, length, get_or, set, add64,
}

pub data MemType : Type 0 where
  free reserved acpi nvs badram : MemType

pub record Entry : Type 0 where
  pub base : ℕ
  pub len : ℕ
  pub kind : MemType

pub record Memmap : Type 0 where
  pub entries : List Entry
  pub total_bytes : ℕ
  pub free_bytes : ℕ
  pub max_pa : ℕ

abbrev pub max_entries : ℕ
max_entries = 64

abbrev pub empty_map : Memmap
empty_map = record { entries = []; total_bytes = 0; free_bytes = 0; max_pa = 0 }

unfoldable pub add : Memmap → ℕ → ℕ → MemType → Memmap
add m base len kind =
    if len == 0 then m else if leb max_entries (length m.entries) then m else record m {
      entries = m.entries ++ (record { base = base; len = len; kind = kind } ∷ []);
      max_pa = if ltb m.max_pa (add64 base len) then add64 base len else m.max_pa;
    }

unfoldable pub e820_to_local : ℕ → MemType
e820_to_local t =
    if t == 1
    then free
    else if t == 2
    then reserved
    else if t == 3
    then acpi
    else if t == 4
    then nvs
    else if t == 5
    then badram
    else reserved

abbrev pub dummy : Entry
dummy = record { base = 0; len = 0; kind = reserved }

-- The inner loop of memmap_sort: `tmp` goes left from slot `j` past the entries above it.
unfoldable pub sift : ℕ → List Entry → Entry → List Entry
sift zero es tmp = set es 0 tmp
sift (suc j) es tmp =
    let rest = sift j (set es (suc j) (get_or es j dummy)) tmp in
    if ltb tmp.base (get_or es j dummy).base then rest else set es (suc j) tmp

-- The outer loop, with `left` rounds left from index `i`.
unfoldable pub sort_from : ℕ → ℕ → List Entry → List Entry
sort_from zero i es = es
sort_from (suc left) i es = sort_from left (i + 1) (sift i es (get_or es i dummy))

unfoldable pub sort : Memmap → Memmap
sort m = record m { entries = sort_from (length m.entries - 1) 1 m.entries }

unfoldable pub is_free : MemType → Bool
is_free free = true
is_free _ = false

unfoldable pub recount_from : List Entry → ℕ → ℕ → ℕ × ℕ
recount_from [] total unused = (total, unused)
recount_from (e ∷ es) total unused =
    recount_from es (add64 total e.len) (if is_free e.kind then add64 unused e.len else unused)

unfoldable pub recount : Memmap → Memmap
recount m =
    let (total, unused) = recount_from m.entries 0 0 in
    record m { total_bytes = total; free_bytes = unused }

-- With no map from the firmware: 1 MiB reserved and 31 MiB free.
unfoldable pub or_default : Memmap → Memmap
or_default m =
    if length m.entries == 0 then add (add m 0 0x100000 reserved) 0x100000 0x1F00000 free else m
