-- ===== src/Memmap/Bounds.antt =====
-- What the rest of the kernel may assume of the memory map that memmap_init builds.
use native.Mathlib.Bridge.{le_prop}
use style9_os.Base.{
  ℕ, zero, suc, ◌+◌, ◌-◌, ◌^◌, ◌%◌, ◌≤◌, ◌<◌, ◌≡◌, refl, ap, ◌∙◌, inl, inr, true, List, [], ◌∷◌,
  leb, ◌==◌, if◌then◌else◌, Bool-cases, length, length-append, length-set, set, get_or, add64,
  arith, All, All-append, All-perm,
}
use style9_os.Memmap.{
  Memmap, MemType, Entry, max_entries, empty_map, reserved, free, add, or_default, sort, recount,
  recount_from, is_free, sift, sort_from, dummy,
}
use style9_os.Memmap.Sorted.{Ascending, sort-IsStableSort}

-- A region that is not empty and ends, in 64 bits, at or below `top`.
abbrev pub IsRegion : ℕ → Entry → Type 0
IsRegion top e = (0 < e.len) × (add64 e.base e.len ≤ top)

pub record IsBounded (m : Memmap) : Type 0 where
  pub fits : length m.entries ≤ max_entries
  pub regions : All (IsRegion m.max_pa) m.entries

regions_mono : (a b : ℕ) (es : List Entry) → a ≤ b → All (IsRegion a) es → All (IsRegion b) es
regions_mono a b [] h r = tt
regions_mono a b (e ∷ es) h r = ((r.0.0, omega arith), regions_mono a b es h r.1)

pub add-IsBounded :
    (m : Memmap) (base len : ℕ) (k : MemType) → IsBounded m → IsBounded (add m base len k)
unfolding add
add-IsBounded m base len k v = elim (Bool-cases (len == 0)) [
  | inl e ↦ rw e v
  | inr e ↦ elim (Bool-cases (leb max_entries (length m.entries))) [
    | inl full ↦ rw (e, full) v
    | inr room ↦
        rw (e, room)
          (record {
            fits =
                ground (
                  arith,
                  length-append m.entries (record { base = base; len = len; kind = k } ∷ []),
                );
            regions =
                All-append (IsRegion _) m.entries _
                  (regions_mono m.max_pa _ m.entries (ground arith) v.regions)
                  ((ground arith, ground arith), tt);
          })
  ]
]

pub empty_map-IsBounded : IsBounded empty_map
empty_map-IsBounded = record { fits = omega arith; regions = tt }

length-add :
    (m : Memmap) (base len : ℕ) (k : MemType)
    → 0 < len
    → length m.entries < max_entries
    → length (add m base len k).entries ≡ length m.entries + 1
unfolding add
length-add m base len k pos room =
    ground (arith, length-append m.entries (record { base = base; len = len; kind = k } ∷ []))

or_default-IsBounded :
    (m : Memmap) → IsBounded m → IsBounded (or_default m) × (0 < length (or_default m).entries)
unfolding or_default
or_default-IsBounded m v = elim (Bool-cases (length m.entries == 0)) [
  | inl e ↦ rw e (add-IsBounded _ _ _ _ (add-IsBounded m _ _ _ v), two e)
  | inr e ↦ rw e (v, ground arith)
]
  where
    two :
        (length m.entries == 0) ≡ true
        → 0 < length (add (add m 0 0x100000 reserved) 0x100000 0x1F00000 free).entries
    two e =
        let empty : length m.entries ≡ 0 = ground arith in
        let one = length-add m 0 0x100000 reserved (omega arith) (omega arith) in
        omega (
          arith,
          length-add (add m 0 0x100000 reserved) 0x100000 0x1F00000 free (omega arith)
              (omega arith),
        )

-- The sums of the lengths of all regions and of the free ones.
pub sum_len : List Entry → ℕ
sum_len [] = 0
sum_len (e ∷ es) = e.len + sum_len es

pub sum_free : List Entry → ℕ
unfolding is_free
sum_free [] = 0
sum_free (e ∷ es) = (if is_free e.kind then e.len else 0) + sum_free es

recount_from-sums :
    (es : List Entry) (t u : ℕ)
    → t < 2 ^ 64
    → u < 2 ^ 64
    → recount_from es t u ≡ (add64 t (sum_len es), add64 u (sum_free es))
unfolding recount_from sum_len sum_free
recount_from-sums [] t u ht hu = ground arith
recount_from-sums (e ∷ es) t u ht hu = elim (Bool-cases (is_free e.kind)) [
  | inl f ↦ rw f (recount_from-sums es _ _ (omega arith) (omega arith) ∙ ground arith)
  | inr f ↦ rw f (recount_from-sums es _ _ (omega arith) hu ∙ ground arith)
]

-- What memmap_init hands to the rest of the kernel.
pub record IsMemmap (m : Memmap) : Type 0 where
  pub bounded : IsBounded m
  pub some_entry : 0 < length m.entries
  pub ascending : Ascending m.entries
  pub total : m.total_bytes ≡ sum_len m.entries % 2 ^ 64
  pub unused : m.free_bytes ≡ sum_free m.entries % 2 ^ 64

length-sift : (j : ℕ) (es : List Entry) (t : Entry) → length (sift j es t) ≡ length es
unfolding sift
length-sift zero es t = length-set es 0 t
length-sift (suc j) es t = ground (
  arith,
  length-sift j (set es (suc j) (get_or es j dummy)) t,
  length-set es (suc j) (get_or es j dummy),
  length-set es (suc j) t,
)

length-sort_from : (n i : ℕ) (es : List Entry) → length (sort_from n i es) ≡ length es
unfolding sort_from
length-sort_from zero i es = refl
length-sort_from (suc n) i es =
    length-sort_from n (i + 1) (sift i es (get_or es i dummy))
    ∙ length-sift i es (get_or es i dummy)

IsRegion-prop : (top : ℕ) (e : Entry) → IsProp (IsRegion top e)
IsRegion-prop top e = hlevel le_prop

sort-IsMemmap : (m : Memmap) → IsBounded m → 0 < length m.entries → IsMemmap (recount (sort m))
unfolding sort recount
sort-IsMemmap m v pos =
    let order = sort-IsStableSort m in
    let same = length-sort_from (length m.entries - 1) 1 m.entries in
    let sums =
      recount_from-sums (sort_from (length m.entries - 1) 1 m.entries) 0 0 (omega arith)
        (omega arith) in
    record {
      bounded = record {
        fits = omega (arith, v.fits);
        regions =
            All-perm (IsRegion m.max_pa) (IsRegion-prop m.max_pa) _ _ order.same_entries v.regions;
      };
      some_entry = omega arith;
      ascending = order.ascending;
      total = ap (λ r. r.0) sums ∙ omega arith;
      unused = ap (λ r. r.1) sums ∙ omega arith;
    }

pub or_default-IsMemmap : (m : Memmap) → IsBounded m → IsMemmap (recount (sort (or_default m)))
or_default-IsMemmap m v =
    sort-IsMemmap (or_default m) (or_default-IsBounded m v).0 (or_default-IsBounded m v).1
