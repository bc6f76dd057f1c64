-- ===== src/Pmm/Init/Home.antt =====
-- carve_bitmap_storage: where pmm_init may put its bookkeeping, told apart from the loop that looks.
use style9_os.Base.{
  ℕ, ◌+◌, ◌-◌, ◌%◌, ◌^◌, ◌≤◌, ◌<◌, ◌≡◌, refl, sym, ◌∙◌, subst, if◌then◌else◌, ◌⊎◌, inl, inr, true,
  false, ◌&&◌, none, some, List, [], ◌∷◌, ltb, leb, Bool-cases, arith, add64, round_up, round_down,
  All,
}
use mathlib.Core.Option.{some-injective}
use style9_os.Memmap.{Entry, is_free}
use style9_os.Pmm.Init.{carve_bitmap_storage}

-- `bytes` bytes from the page at `a` on can hold the bookkeeping: they are whole pages of a FREE region,
-- above the first megabyte and below the managed end, and either past the kernel image or in a region
-- that ends below it.
pub record IsHome (pa_end kernel_start kernel_end bytes : ℕ) (e : Entry) (a : ℕ) : Type 0 where
  pub unused : is_free e.kind ≡ true
  pub page : a % 4096 ≡ 0
  pub inside : e.base ≤ a
  pub ends : a + bytes ≤ round_down (add64 e.base e.len)
  pub high : 1048576 ≤ a
  pub managed : a + bytes ≤ pa_end
  pub past : (round_up kernel_end ≤ a) ⊎ (round_down (add64 e.base e.len) ≤ round_down kernel_start)

-- some entry of the map has a home at `a`
abbrev pub HomeIn : ℕ → ℕ → ℕ → ℕ → List Entry → ℕ → Type 0
HomeIn pa_end ks ke bytes [] a = ⊥
HomeIn pa_end ks ke bytes (e ∷ es) a =
    IsHome pa_end ks ke bytes e a ⊎ HomeIn pa_end ks ke bytes es a

-- where the loop puts the bookkeeping in one region, and where it lets the region end
abbrev place : ℕ → ℕ → Entry → ℕ
place ks ke e =
    let base0 = round_up e.base in
    let base1 = if ltb base0 1048576 then 1048576 else base0 in
    if ltb base1 (round_up ke) && ltb (round_down ks) (round_down (add64 e.base e.len))
    then round_up ke
    else base1

abbrev stop : ℕ → Entry → ℕ
stop pa_end e =
    let end0 = round_down (add64 e.base e.len) in if ltb pa_end end0 then pa_end else end0

module _ (pa_end ks ke bytes : ℕ) (some_bytes : 0 < bytes) (image : ke + 2 ^ 14 < 2 ^ 64) where
  place-IsHome :
      (e : Entry)
      → e.base + 4095 < 2 ^ 64
      → is_free e.kind ≡ true
      → place ks ke e + bytes ≤ stop pa_end e
      → IsHome pa_end ks ke bytes e (place ks ke e)
  place-IsHome e small f room = record {
    unused = f;
    page = ground arith;
    inside = ground (arith, small);
    ends = ground (arith, room);
    high = ground arith;
    managed = ground (arith, room);
    past = ground arith;
  }

  IsHome-room :
      (e : Entry) (a : ℕ)
      → e.base + 4095 < 2 ^ 64
      → IsHome pa_end ks ke bytes e a
      → place ks ke e + bytes ≤ stop pa_end e
  IsHome-room e a small h =
      ground (arith, small, h.page, h.inside, h.ends, h.high, h.managed, h.past)

  -- One round of the loop takes the region's place or goes on.
  carve_bitmap_storage-round :
      (e : Entry) (es : List Entry)
      → ((is_free e.kind ≡ true)
          × (place ks ke e + bytes ≤ stop pa_end e)
          × (carve_bitmap_storage pa_end ks ke (e ∷ es) bytes ≡ some (place ks ke e)))
        ⊎ (((is_free e.kind ≡ false) ⊎ (stop pa_end e < place ks ke e + bytes))
            × (carve_bitmap_storage pa_end ks ke (e ∷ es) bytes
                ≡ carve_bitmap_storage pa_end ks ke es bytes))
  unfolding carve_bitmap_storage
  carve_bitmap_storage-round e es = elim (Bool-cases (is_free e.kind)) [
    | inr used ↦ inr (inl used, simp used)
    | inl f ↦ elim (Bool-cases (leb (stop pa_end e) (place ks ke e))) [
      | inl empty ↦
          let short = leb_le (stop pa_end e) (place ks ke e) empty in
          inr (inr (omega arith), simp (f, empty))
      | inr some_room ↦ elim (Bool-cases (ltb (stop pa_end e - place ks ke e) bytes)) [
        | inl short ↦ inr (
          inr (room_short (stop pa_end e) (place ks ke e) short some_room),
          simp (f, some_room, short),
        )
        | inr long ↦
            inl (
              f,
              room_long (stop pa_end e) (place ks ke e) long some_room,
              simp (f, some_room, long),
            )
      ]
    ]
  ]
    where
      leb_le : (x y : ℕ) → leb x y ≡ true → x ≤ y
      leb_le x y h = ground arith

      room_short : (x y : ℕ) → ltb (x - y) bytes ≡ true → leb x y ≡ false → x < y + bytes
      room_short x y h g = ground arith

      room_long : (x y : ℕ) → ltb (x - y) bytes ≡ false → leb x y ≡ false → y + bytes ≤ x
      room_long x y h g = ground arith

  carve_bitmap_storage-empty : carve_bitmap_storage pa_end ks ke [] bytes ≡ none
  unfolding carve_bitmap_storage
  carve_bitmap_storage-empty = refl

  -- What the loop settles on is a home.
  pub carve_bitmap_storage-HomeIn :
      (es : List Entry) (a : ℕ)
      → All (λ e. e.base + 4095 < 2 ^ 64) es
      → carve_bitmap_storage pa_end ks ke es bytes ≡ some a
      → HomeIn pa_end ks ke bytes es a
  carve_bitmap_storage-HomeIn [] a small h =
      let nothing : none ≡ some a = sym carve_bitmap_storage-empty ∙ h in cc
  carve_bitmap_storage-HomeIn (e ∷ es) a small h = elim (carve_bitmap_storage-round e es) [
    | inl (f, room, here) ↦ inl (
        subst (IsHome pa_end ks ke bytes e) (some-injective (place ks ke e) a (sym here ∙ h))
          (place-IsHome e small.0 f room))
    | inr (why, on) ↦ inr (carve_bitmap_storage-HomeIn es a small.1 (sym on ∙ h))
  ]

  -- Where the loop fails there is none.
  pub carve_bitmap_storage-none :
      (es : List Entry) (a : ℕ)
      → All (λ e. e.base + 4095 < 2 ^ 64) es
      → carve_bitmap_storage pa_end ks ke es bytes ≡ none
      → ¬ HomeIn pa_end ks ke bytes es a
  carve_bitmap_storage-none [] a small h x = x
  carve_bitmap_storage-none (e ∷ es) a small h x = elim (carve_bitmap_storage-round e es) [
    | inl (f, room, here) ↦ let one : none ≡ some (place ks ke e) = sym h ∙ here in cc
    | inr (why, on) ↦ elim x [
      | inr there ↦ carve_bitmap_storage-none es a small.1 (sym on ∙ h) there
      | inl here ↦
          let room = IsHome-room e a small.0 here in
          elim why [ inl used ↦ ground (arith, here.unused, used) | inr short ↦ omega arith ]
    ]
  ]
