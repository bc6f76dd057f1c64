-- ===== src/Memmap/Tests.antt =====
-- kern/memmap.c at one boot: a Multiboot2 block of two regions in the wrong order.
use style9_os.Base.{
  ℕ, ◌+◌, ◌*◌, ◌/◌, ◌%◌, ◌^◌, ◌≤◌, ◌≡◌, refl, ◌≢◌, ◌⊎◌, none, some, List, [], ◌∷◌, ◌++◌, get_or,
  arith,
}
use style9_os.Memmap.{Memmap, sort, add, e820_to_local, empty_map, free, reserved}
use style9_os.Memmap.Boot.{
  Memory, u32, u64, add_at, add_each, add_tag, walk_mb2, parse_mb2, mb1_magic, mb2_magic, built,
  panicked, running, init,
}
use style9_os.Memmap.Sorted.{IsStableSort, sort-IsStableSort}
use style9_os.Memmap.Bounds.{IsMemmap}
use style9_os.Memmap.Walk.{IsStuck}
use style9_os.Memmap.Init.{init-IsMemmap}

abbrev swapped : Memmap
swapped = record {
  entries =
      record { base = 1048576; len = 4096; kind = free }
      ∷ record { base = 0; len = 4096; kind = reserved }
      ∷ record { base = 0; len = 8192; kind = free }
      ∷ [];
  total_bytes = 0;
  free_bytes = 0;
  max_pa = 1052672;
}

sort-IsStableSort_example : IsStableSort swapped.entries (sort swapped).entries
sort-IsStableSort_example = sort-IsStableSort swapped

-- little-endian words
abbrev le32 : ℕ → List ℕ
le32 n = n % 256 ∷ n / 256 % 256 ∷ n / 65536 % 256 ∷ n / 16777216 % 256 ∷ []

abbrev le64 : ℕ → List ℕ
le64 n = le32 (n % 2 ^ 32) ++ le32 (n / 2 ^ 32)

-- a Multiboot2 block at address 0: a map of two regions in the wrong order, then the end
abbrev block : List ℕ
block =
    le32 80
    ++ (le32 0
        ++ (le32 6
            ++ (le32 64
                ++ (le32 24
                    ++ (le32 0
                        ++ (le64 1048576
                            ++ (le64 31457280
                                ++ (le32 1
                                    ++ (le32 0
                                        ++ (le64 0
                                            ++ (le64 654336
                                                ++ (le32 1
                                                    ++ (le32 0 ++ (le32 0 ++ le32 8))))))))))))))

abbrev memory : Memory
memory a = get_or block a 0

block_size : u32 memory 0 ≡ 80
unfolding u32
block_size = refl

block_length : u32 memory 44 + 4 ≤ 4 * 2 ^ 30
unfolding u32
block_length = omega arith

free_found :
    (parse_mb2 3 memory empty_map 0)
    ≡ some (record {
      entries =
          record { base = 1048576; len = 31457280; kind = free }
          ∷ record { base = 0; len = 654336; kind = free }
          ∷ [];
      total_bytes = 0;
      free_bytes = 0;
      max_pa = 32505856;
    })
unfolding parse_mb2 walk_mb2 add_tag add_each add_at add e820_to_local u32 u64
free_found = refl

-- the map's tag with no size
abbrev sizeless : Memory
sizeless a = get_or (le32 80 ++ (le32 0 ++ (le32 1 ++ le32 0))) a 0

never_ends : parse_mb2 20 sizeless empty_map 0 ≡ none
unfolding parse_mb2 walk_mb2 add_tag u32
never_ends = refl

init-IsMemmap_example :
    ((m : Memmap) × (init (2 ^ 30) memory mb2_magic 0 ≡ built m) × IsMemmap m)
    ⊎ (((mb2_magic ≡ mb2_magic)
          × ((t : ℕ) × IsStuck memory (0 + 8) (0 + u32 memory 0) t)
          × ((more : ℕ) → init more memory mb2_magic 0 ≡ running))
        ⊎ ((mb2_magic ≢ mb1_magic)
            × (mb2_magic ≢ mb2_magic)
            × (mb2_magic ≢ 0)
            × (init (2 ^ 30) memory mb2_magic 0 ≡ panicked)))
init-IsMemmap_example =
    init-IsMemmap (2 ^ 30) memory mb2_magic 0 block_length (omega (arith, block_size))
