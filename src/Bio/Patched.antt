-- ===== src/Bio/Patched.antt =====
-- What a write leaves in one buffer, for one page of its run and for two runs in a row.
use style9_os.Base.{
  ℕ, ◌+◌, ◌-◌, ◌*◌, ◌/◌, ◌%◌, ◌≤◌, ◌<◌, ◌≡◌, refl, sym, ap, ◌∙◌, ◌≢◌, ◌⊎◌, inl, inr, true, false,
  ◌&&◌, ltb, leb, Bool-cases, arith, dec_lt,
}
use style9_os.Bio.{Buf, names, copy}
use style9_os.Bio.Patch.{patched}

module _ {Sector : Type 0} where
  -- `b'` is `b` after a write of the sectors from `lo` up to `hi` of `drive`, with the bytes `new`.
  pub record PatchedBuf (b b' : Buf Sector) (drive lo hi : ℕ) (new : ℕ → Sector) : Type 0 where
    pub page_kept : b'.page ≡ b.page
    pub drive_kept : b'.drive ≡ b.drive
    pub valid_kept : b'.valid ≡ b.valid
    pub busy_kept : b'.busy ≡ b.busy
    pub body_busy : b.busy ≡ true → (w : ℕ) → b'.body w ≡ b.body w
    pub body_new :
        (w : ℕ)
        → w < 8
        → b.busy ≡ false
        → b.valid ≡ true
        → b.drive ≡ drive
        → lo ≤ b.page * 8 + w
        → b.page * 8 + w < hi
        → b'.body w ≡ new (b.page * 8 + w)
    pub body_old :
        (w : ℕ)
        → w < 8
        → (b.drive ≢ drive) ⊎ (b.page * 8 + w < lo) ⊎ (hi ≤ b.page * 8 + w)
        → b'.body w ≡ b.body w
    pub stale_new :
        b.busy ≡ true
        → b.drive ≡ drive
        → lo < hi
        → b.page * 8 < hi
        → lo < b.page * 8 + 8
        → b'.stale ≡ true
    pub stale_kept : b.stale ≡ true → b'.stale ≡ true

  pub PatchedBuf-refl :
      (b : Buf Sector) (drive lo : ℕ) (new : ℕ → Sector) → PatchedBuf b b drive lo lo new
  PatchedBuf-refl b drive lo new = record {
    page_kept = refl;
    drive_kept = refl;
    valid_kept = refl;
    busy_kept = refl;
    body_busy = λ h w. refl;
    body_new = λ w h i v d l u. absurd (omega arith);
    body_old = λ w h o. refl;
    stale_new = λ h d l m n. absurd (omega arith);
    stale_kept = λ h. h;
  }

  pub names-true :
      (b : Buf Sector) (drive page : ℕ)
      → b.page ≡ page
      → b.drive ≡ drive
      → names b drive page ≡ true
  names-true b drive page p d = ground arith

  pub names-eq :
      (b : Buf Sector) (drive page : ℕ)
      → names b drive page ≡ true
      → (b.page ≡ page) × (b.drive ≡ drive)
  names-eq b drive page h = ground arith

  copy-outside :
      (b : Buf Sector) (drive at run w : ℕ)
      → (b.page ≡ at / 8) × (b.drive ≡ drive)
      → w < 8
      → (b.drive ≢ drive) ⊎ (b.page * 8 + w < at) ⊎ (at + run ≤ b.page * 8 + w)
      → (leb (at % 8) w && ltb w (at % 8 + run)) ≡ false
  copy-outside b drive at run w k h (inl ne) = absurd (ne k.1)
  copy-outside b drive at run w k h (inr (inl before)) = ground arith
  copy-outside b drive at run w k h (inr (inr after)) = ground arith

  pub PatchedBuf-one :
      (b : Buf Sector) (drive lba done at run : ℕ) (bytes : ℕ → Sector)
      → at ≡ lba + done
      → run ≤ 8 - at % 8
      → PatchedBuf b
          (patched (names b drive (at / 8)) (λ body. copy body (at % 8) bytes done run) b)
          drive
          at
          (at + run)
          (λ s. bytes (s - lba))
  unfolding patched copy
  PatchedBuf-one b drive lba done at run bytes e r = record {
    page_kept = ground arith;
    drive_kept = ground arith;
    valid_kept = ground arith;
    busy_kept = ground arith;
    body_busy = λ h w. ground arith;
    body_new = λ w h i v d l u.
        let named : names b drive (at / 8) ≡ true = names-true b drive (at / 8) (omega arith) d in
        let inside : (leb (at % 8) w && ltb w (at % 8 + run)) ≡ true = ground arith in
        let index : done + (w - at % 8) ≡ b.page * 8 + w - lba = omega arith in
        simp (named, i, v, inside) (ap bytes index);
    body_old = λ w h o. elim (Bool-cases (names b drive (at / 8))) [
      | inr other ↦ simp other
      | inl named ↦ elim (Bool-cases b.busy) [
        | inl busy ↦ simp (named, busy)
        | inr idle ↦ elim (Bool-cases b.valid) [
          | inr free ↦ simp (named, idle, free)
          | inl v ↦
              let k = names-eq b drive (at / 8) named in
              let outside : (leb (at % 8) w && ltb w (at % 8 + run)) ≡ false =
                copy-outside b drive at run w k h o in
              simp (named, idle, v, outside)
        ]
      ]
    ];
    stale_new = λ h d l m n.
        let named : names b drive (at / 8) ≡ true = names-true b drive (at / 8) (omega arith) d in
        simp (named, h);
    stale_kept = λ h. ground arith;
  }

  pub PatchedBuf-trans :
      (a b c : Buf Sector) (drive lo mid hi : ℕ) (new : ℕ → Sector)
      → lo ≤ mid
      → mid ≤ hi
      → PatchedBuf a b drive lo mid new
      → PatchedBuf b c drive mid hi new
      → PatchedBuf a c drive lo hi new
  PatchedBuf-trans a b c drive lo mid hi new lm mh p q =
      let at : (w : ℕ) → b.page * 8 + w ≡ a.page * 8 + w = λ w. ap (λ x. x * 8 + w) p.page_kept in
      record {
        page_kept = q.page_kept ∙ p.page_kept;
        drive_kept = q.drive_kept ∙ p.drive_kept;
        valid_kept = q.valid_kept ∙ p.valid_kept;
        busy_kept = q.busy_kept ∙ p.busy_kept;
        body_busy = λ h w. q.body_busy (p.busy_kept ∙ h) w ∙ p.body_busy h w;
        body_new = λ w h i v d l u. elim (dec_lt (a.page * 8 + w) mid) [
          | yes early ↦
              q.body_old w h (inr (inl (omega (arith, at w)))) ∙ p.body_new w h i v d l early
          | no late ↦
              q.body_new w h (p.busy_kept ∙ i) (p.valid_kept ∙ v) (p.drive_kept ∙ d)
                (omega (arith, at w)) (omega (arith, at w))
              ∙ ap new (at w)
        ];
        body_old = λ w h o.
            q.body_old w h (elim o [
              | inl ne ↦ inl (λ e. ne (sym p.drive_kept ∙ e))
              | inr (inl before) ↦ inr (inl (omega (arith, at w)))
              | inr (inr after) ↦ inr (inr (omega (arith, at w)))
            ])
            ∙ p.body_old w h (elim o [
              | inl ne ↦ inl ne
              | inr (inl before) ↦ inr (inl before)
              | inr (inr after) ↦ inr (inr (omega arith))
            ]);
        stale_new = λ h d l m n. elim (dec_lt lo mid) [
          | no empty ↦
              q.stale_new (p.busy_kept ∙ h) (p.drive_kept ∙ d) (omega arith) (omega (arith, at 0))
                (omega (arith, at 0))
          | yes some_early ↦ elim (dec_lt (a.page * 8) mid) [
            | yes early ↦ q.stale_kept (p.stale_new h d some_early early n)
            | no late ↦
                q.stale_new (p.busy_kept ∙ h) (p.drive_kept ∙ d) (omega (arith, at 0))
                  (omega (arith, at 0)) (omega (arith, at 0))
          ]
        ];
        stale_kept = λ h. q.stale_kept (p.stale_kept h);
      }
