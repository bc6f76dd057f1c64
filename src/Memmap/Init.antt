-- ===== src/Memmap/Init.antt =====
-- memmap_init over any memory.
use style9_os.Base.{
  ℕ, ◌+◌, ◌*◌, ◌%◌, ◌^◌, ◌≤◌, ◌<◌, ◌≡◌, refl, ◌≢◌, ◌⊎◌, inl, inr, none, some, ◌==◌, Bool-cases,
  arith, Option,
}
use style9_os.Memmap.{Memmap, empty_map, add, reserved, free}
use style9_os.Memmap.Boot.{
  Memory, u32, has_memmap, has_memory, parse_mb1, parse_mb2, pvh_magic, parse_pvh, mb1_magic,
  mb2_magic, built, panicked, running, finish, init,
}
use style9_os.Memmap.Bounds.{
  IsBounded, add-IsBounded, empty_map-IsBounded, IsMemmap, or_default-IsMemmap,
}
use style9_os.Memmap.Walk.{
  IsStuck, walked, stuck, add_each-IsBounded, walk_mb1-ends, walk_mb2-Walked,
}

parse_mb1-IsBounded :
    (fuel : ℕ) (mem : Memory) (info : ℕ)
    → u32 mem (info + 44) + 4 ≤ 4 * fuel
    → (q : Memmap) × (parse_mb1 fuel mem empty_map info ≡ some q) × IsBounded q
unfolding parse_mb1
parse_mb1-IsBounded fuel mem info enough = elim (Bool-cases (has_memmap (u32 mem info))) [
  | inl mapped ↦
      let (q, h, w) =
        walk_mb1-ends fuel mem empty_map (u32 mem (info + 48))
          (u32 mem (info + 48) + u32 mem (info + 44)) empty_map-IsBounded (omega arith)
          (omega arith) in
      (q, simp mapped h, w)
  | inr bare ↦ elim (Bool-cases (has_memory (u32 mem info))) [
    | inl sized ↦ (
      add (add empty_map 0 0x100000 reserved) 0x100000 (u32 mem (info + 8) * 1024 % 2 ^ 64) free,
      simp (bare, sized) refl,
      add-IsBounded _ _ _ _ (add-IsBounded empty_map 0 0x100000 reserved empty_map-IsBounded),
    )
    | inr nothing ↦ (empty_map, simp (bare, nothing) refl, empty_map-IsBounded)
  ]
]

parse_pvh-IsBounded : (mem : Memory) (si : ℕ) → IsBounded (parse_pvh mem empty_map si)
unfolding parse_pvh
parse_pvh-IsBounded mem si = elim (Bool-cases (u32 mem si == pvh_magic)) [
  | inl known ↦ simp known (add_each-IsBounded mem _ empty_map _ 24 empty_map-IsBounded)
  | inr other ↦ simp other empty_map-IsBounded
]

finish_built :
    {o : Option Memmap} (q : Memmap)
    → o ≡ some q
    → IsBounded q
    → (m : Memmap) × (finish o ≡ built m) × IsMemmap m
unfolding finish
finish_built q h v = (_, simp h refl, or_default-IsMemmap q v)

finish_running : {o : Option Memmap} → o ≡ none → finish o ≡ running
unfolding finish
finish_running h = simp h refl

-- Where every address can be read, and with a round for every four bytes of a Multiboot1 map, or for
-- every eight of a Multiboot2 block, memmap_init ends, whatever bytes it reads under a known boot magic,
-- and has built a table that is not empty, fits its array, is in ascending order of base and holds no
-- empty region, with totals that are the sums of the lengths, in 64 bits. The one exception is a
-- Multiboot2 block with a tag that is not the end and whose size, rounded up to a multiple of eight in 32
-- bits, is zero: where the walk is caught by one it never ends. Under an unknown magic memmap_init
-- panics.
pub init-IsMemmap :
    (fuel : ℕ) (mem : Memory) (magic info : ℕ)
    → u32 mem (info + 44) + 4 ≤ 4 * fuel
    → u32 mem info < 8 * fuel
    → ((m : Memmap) × (init fuel mem magic info ≡ built m) × IsMemmap m)
      ⊎ (((magic ≡ mb2_magic)
            × ((t : ℕ) × IsStuck mem (info + 8) (info + u32 mem info) t)
            × ((more : ℕ) → init more mem magic info ≡ running))
          ⊎ ((magic ≢ mb1_magic)
              × (magic ≢ mb2_magic)
              × (magic ≢ 0)
              × (init fuel mem magic info ≡ panicked)))
unfolding init parse_mb2
init-IsMemmap fuel mem magic info rounds_1 rounds_2 = elim (Bool-cases (magic == mb1_magic)) [
  | inl is_1 ↦
      let (q, h, v) = parse_mb1-IsBounded fuel mem info rounds_1 in
      inl (simp is_1 (finish_built q h v))
  | inr not_1 ↦ elim (Bool-cases (magic == mb2_magic)) [
    | inl is_2 ↦
        elim (walk_mb2-Walked fuel mem empty_map (info + 8) (info + u32 mem info)
          empty_map-IsBounded (omega arith) (omega arith)) [
            | walked q h v ↦ inl (simp (not_1, is_2) (finish_built q h v))
            | stuck t s h ↦ inr (
                inl (
                  ground (arith, is_2),
                  (t, s),
                  λ more. simp (not_1, is_2) (finish_running (h more)),
                ))
          ]
    | inr not_2 ↦ elim (Bool-cases (magic == 0)) [
      | inl is_pvh ↦
          inl (simp (not_1, not_2, is_pvh) (finish_built _ refl (parse_pvh-IsBounded mem info)))
      | inr unknown ↦ inr (
          inr (
            ground (arith, not_1),
            ground (arith, not_2),
            ground (arith, unknown),
            simp (not_1, not_2, unknown) refl,
          ))
    ]
  ]
]
