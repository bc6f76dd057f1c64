-- ===== src/Bio/Patch.antt =====
-- The loop of bio_write that makes the cache agree with what the disk took.
use style9_os.Base.{
  ℕ, zero, suc, ◌+◌, ◌≤◌, ◌<◌, ◌≡◌, refl, sym, subst, subst₂, ap, ◌∙◌, ◌≢◌, ◌⊎◌, inl, inr, Bool,
  true, false, ◌&&◌, ◌==◌, if◌then◌else◌, Bool-cases, arith, ℕ_discrete,
}
use style9_os.Bio.{Buf, names, put_buf, patch_page}
use style9_os.Bio.Scan.{is_live}

module _ {Sector : Type 0} where
  -- No page is in two live buffers.
  unfoldable pub IsUnique : (ℕ → Buf Sector) → Type 0
  IsUnique bufs =
      (i j : ℕ)
      → i < 64
      → j < 64
      → (bufs i).page ≡ (bufs j).page
      → (bufs i).drive ≡ (bufs j).drive
      → is_live (bufs i) ≡ true
      → is_live (bufs j) ≡ true
      → i ≡ j

  pub unique-apply :
      (bufs : ℕ → Buf Sector) (i j : ℕ)
      → IsUnique bufs
      → i < 64
      → j < 64
      → (bufs i).page ≡ (bufs j).page
      → (bufs i).drive ≡ (bufs j).drive
      → is_live (bufs i) ≡ true
      → is_live (bufs j) ≡ true
      → i ≡ j
  unfolding IsUnique
  unique-apply bufs i j u = u i j

  pub put_buf_self :
      (bufs : ℕ → Buf Sector) (i : ℕ) (b : Buf Sector) (k : ℕ) → k ≡ i → put_buf bufs i b k ≡ b
  put_buf_self bufs i b k e = let here : (k == i) ≡ true = ground (arith, e) in rw here refl

  pub put_buf-other :
      (bufs : ℕ → Buf Sector) (i : ℕ) (b : Buf Sector) (k : ℕ) → k ≢ i → put_buf bufs i b k ≡ bufs k
  put_buf-other bufs i b k ne = let there : (k == i) ≡ false = ground (arith, ne) in rw there refl

  -- No live buffer but the one at `i` holds the page of `b`, if `b` is live.
  abbrev pub IsAlone : (ℕ → Buf Sector) → ℕ → Buf Sector → Type 0
  IsAlone bufs i b =
      is_live b ≡ true
      → (k : ℕ) → k < 64
      → k ≢ i
      → is_live (bufs k) ≡ true
      → (bufs k).page ≡ b.page
      → (bufs k).drive ≢ b.drive

  pub put-IsUnique :
      (bufs : ℕ → Buf Sector) (i : ℕ) (b : Buf Sector)
      → IsUnique bufs
      → IsAlone bufs i b
      → IsUnique (put_buf bufs i b)
  unfolding IsUnique
  put-IsUnique bufs i b u alone x y hx hy ep ed lx ly = elim (ℕ_discrete x i) [
    | yes ex ↦ elim (ℕ_discrete y i) [
      | yes ey ↦ ex ∙ sym ey
      | no ny ↦
          let p = put_buf_self bufs i b x ex in
          let q = put_buf-other bufs i b y ny in
          absurd (
            alone (subst (λ c. is_live c ≡ true) p lx) y hy ny (subst (λ c. is_live c ≡ true) q ly)
              (subst₂ (λ c d. c.page ≡ d.page) q p (sym ep))
              (subst₂ (λ c d. c.drive ≡ d.drive) q p (sym ed)))
    ]
    | no nx ↦ elim (ℕ_discrete y i) [
      | yes ey ↦
          let p = put_buf_self bufs i b y ey in
          let q = put_buf-other bufs i b x nx in
          absurd (
            alone (subst (λ c. is_live c ≡ true) p ly) x hx nx (subst (λ c. is_live c ≡ true) q lx)
              (subst₂ (λ c d. c.page ≡ d.page) q p ep) (subst₂ (λ c d. c.drive ≡ d.drive) q p ed))
      | no ny ↦
          let p = put_buf-other bufs i b x nx in
          let q = put_buf-other bufs i b y ny in
          u x y hx hy (subst₂ (λ c d. c.page ≡ d.page) p q ep)
            (subst₂ (λ c d. c.drive ≡ d.drive) p q ed) (subst (λ c. is_live c ≡ true) p lx)
            (subst (λ c. is_live c ≡ true) q ly)
    ]
  ]

  -- what a patch of one page makes of a buffer
  unfoldable pub patched : Bool → ((ℕ → Sector) → ℕ → Sector) → Buf Sector → Buf Sector
  patched named fix b =
      if named && b.busy
      then record b { stale = true }
      else if named && b.valid
      then record b { body = fix b.body }
      else b

  patched_quiet :
      (named : Bool) (fix : (ℕ → Sector) → ℕ → Sector) (b : Buf Sector)
      → (named && is_live b) ≡ false
      → patched named fix b ≡ b
  unfolding patched
  patched_quiet false fix b h = refl
  patched_quiet true fix b h =
      let idle : b.busy ≡ false = ground (arith, h) in
      let free : b.valid ≡ false = ground (arith, h) in simp (idle, free)

  -- `bufs'` is `bufs` with every buffer from `i` on patched.
  pub record PatchedFrom (bufs bufs' : ℕ → Buf Sector) (drive page i : ℕ)
      (fix : (ℕ → Sector) → ℕ → Sector) : Type 0 where
    pub inside :
        (k : ℕ) → i ≤ k → k < 64 → bufs' k ≡ patched (names (bufs k) drive page) fix (bufs k)
    pub outside : (k : ℕ) → (k < i) ⊎ (64 ≤ k) → bufs' k ≡ bufs k

  Patched-rest :
      (bufs bufs' : ℕ → Buf Sector) (drive page i : ℕ) (fix : (ℕ → Sector) → ℕ → Sector)
      → (names (bufs i) drive page && is_live (bufs i)) ≡ false
      → PatchedFrom bufs bufs' drive page (suc i) fix
      → PatchedFrom bufs bufs' drive page i fix
  Patched-rest bufs bufs' drive page i fix dead rest = record {
    inside = λ k l u. elim (ℕ_discrete k i) [
      | yes e ↦
          rest.outside k (inl (omega arith))
          ∙ sym (
              patched_quiet _ fix (bufs k)
                (subst (λ j. (names (bufs j) drive page && is_live (bufs j)) ≡ false) (sym e) dead))
      | no ne ↦ rest.inside k (omega arith) u
    ];
    outside = λ k o. rest.outside k (ground (arith, o));
  }

  -- the loop stops at the only buffer that is both named and live
  Patched-stop :
      (bufs : ℕ → Buf Sector) (drive page i : ℕ) (fix : (ℕ → Sector) → ℕ → Sector) (b : Buf Sector)
      → i < 64
      → names (bufs i) drive page ≡ true
      → is_live (bufs i) ≡ true
      → IsUnique bufs
      → b ≡ patched true fix (bufs i)
      → PatchedFrom bufs (put_buf bufs i b) drive page i fix
  unfolding IsUnique
  Patched-stop bufs drive page i fix b h n live u e = record {
    inside = λ k l s. elim (ℕ_discrete k i) [
      | yes at ↦
          let here : (k == i) ≡ true = ground (arith, at) in
          rw here (
            e
            ∙ ap (λ x. patched x fix (bufs i)) (sym n)
            ∙ ap (λ j. patched (names (bufs j) drive page) fix (bufs j)) (sym at))
      | no ne ↦
          let there : (k == i) ≡ false = ground (arith, ne) in
          rw there (
            sym (
              patched_quiet _ fix (bufs k)
                (elim (Bool-cases (names (bufs k) drive page && is_live (bufs k))) [
                  | inr quiet ↦ quiet
                  | inl both ↦ absurd (
                      ne (
                        u k i s h (ground (arith, both, n)) (ground (arith, both, n))
                          (ground (arith, both)) live))
                ])))
    ];
    outside = λ k o. let there : (k == i) ≡ false = ground (arith, o, h) in rw there refl;
  }

  pub patch_page-Patched :
      (left : ℕ) (bufs : ℕ → Buf Sector) (drive page i : ℕ) (fix : (ℕ → Sector) → ℕ → Sector)
      → i + left ≡ 64
      → IsUnique bufs
      → PatchedFrom bufs (patch_page left bufs drive page fix i).1 drive page i fix
  unfolding patch_page patched
  patch_page-Patched zero bufs drive page i fix e u = record {
    inside = λ k l s. absurd (omega arith);
    outside = λ k o. refl;
  }
  patch_page-Patched (suc left) bufs drive page i fix e u =
      let rest = patch_page-Patched left bufs drive page (suc i) fix (omega arith) u in
      elim (Bool-cases (names (bufs i) drive page)) [
        | inr other ↦ simp other (Patched-rest bufs _ drive page i fix (ground (arith, other)) rest)
        | inl named ↦ elim (Bool-cases (bufs i).busy) [
          | inl b ↦
              simp (named, b)
                (Patched-stop bufs drive page i fix _ (omega arith) named (ground (arith, b)) u
                  (simp b))
          | inr b ↦ elim (Bool-cases (bufs i).valid) [
            | inl v ↦
                simp (named, b, v)
                  (Patched-stop bufs drive page i fix _ (omega arith) named (ground (arith, b, v)) u
                    (simp (b, v)))
            | inr v ↦
                simp (named, b, v)
                  (Patched-rest bufs _ drive page i fix (ground (arith, b, v)) rest)
          ]
        ]
      ]
