-- ===== src/Bio/Writing.antt =====
-- bio_write against the disk, for one thread that no other interrupts, and the bio_read after it.
use style9_os.Base.{
  ℕ, zero, suc, ◌+◌, ◌-◌, ◌*◌, ◌^◌, ◌≤◌, ◌<◌, ◌≡◌, refl, sym, ◌∙◌, ◌≢◌, ◌⊎◌, inl, inr, true, false,
  Option, some, ◌==◌, Bool-cases, arith, ap₂, ℕ_discrete, dec_lt, add64,
}
use style9_os.Bio.{Driver, Buf, Bio, run_at, patch, patch_from, patch_run}
use style9_os.Bio.Patched.{PatchedBuf}
use style9_os.Bio.Patching.{patch-PatchedBuf, patch-IsUnique}
use style9_os.Bio.Transparent.{Answered, complete, broke, read-Answered}
use style9_os.Bio.Serial.{read, write}
use style9_os.Bio.Page.{IsFaithful, IsCoherent}

module _ {Sector : Type 0} where
  patch_from-ready :
      (fuel : ℕ) (bio : Bio Sector) (drive lba done left : ℕ) (bytes : ℕ → Sector)
      → (patch_from fuel bio drive lba done left bytes).ready ≡ bio.ready
  unfolding patch_from patch_run
  patch_from-ready zero bio drive lba done left bytes = refl
  patch_from-ready (suc fuel) bio drive lba done left bytes = elim (Bool-cases (left == 0)) [
    | inl stop ↦ rw stop
    | inr more ↦
        let at : ℕ = add64 lba done in
        let run : ℕ = run_at at left in
        rw more (
          patch_from-ready fuel (patch_run bio drive at done run bytes) drive lba (done + run)
            (left - run) bytes)
  ]

module _ {Disk Sector : Type 0} (dev : Driver Disk Sector) (view : Disk → ℕ → ℕ → Sector)
    (law : IsFaithful dev view) (disk : Disk) where
  -- a sector of a valid buffer after the patch, inside the run and outside it
  patched-agrees :
      (b b' : Buf Sector) (drive lba nsec : ℕ) (bytes : ℕ → Sector)
      → PatchedBuf b b' drive lba (lba + nsec) (λ s. bytes (s - lba))
      → b.busy ≡ false
      → b.valid ≡ true
      → ((w : ℕ) → w < 8 → b.body w ≡ view disk b.drive (b.page * 8 + w))
      → (dev.kwrite disk drive lba nsec bytes).0 ≡ 0
      → (w : ℕ) → w < 8
      → b'.body w ≡ view (dev.kwrite disk drive lba nsec bytes).1 b.drive (b.page * 8 + w)
  patched-agrees b b' drive lba nsec bytes p i v same ok w u =
      let disk' : Disk = (dev.kwrite disk drive lba nsec bytes).1 in
      let s : ℕ = b.page * 8 + w in
      let rest : (b.drive ≢ drive) ⊎ (s < lba) ⊎ (lba + nsec ≤ s)
          → b'.body w ≡ view disk' b.drive s =
        λ o.
          p.body_old w u o
          ∙ same w u
          ∙ sym (law.write_rest disk drive lba nsec bytes ok b.drive s o) in
      elim (ℕ_discrete b.drive drive) [
        | no ne ↦ rest (inl ne)
        | yes e ↦ elim (dec_lt s lba) [
          | yes before ↦ rest (inr (inl before))
          | no after ↦ elim (dec_lt s (lba + nsec)) [
            | no past ↦ rest (inr (inr (omega arith)))
            | yes within ↦
                let at : lba + (s - lba) ≡ s = omega arith in
                p.body_new w u i v e (omega arith) within
                ∙ sym (law.write_ok disk drive lba nsec bytes ok (s - lba) (omega arith))
                ∙ ap₂ (view disk') (sym e) at
          ]
        ]
      ]

  patch-IsCoherent :
      (bio : Bio Sector) (drive lba nsec : ℕ) (bytes : ℕ → Sector)
      → lba + nsec < 2 ^ 64
      → IsCoherent bio.bufs (view disk)
      → (dev.kwrite disk drive lba nsec bytes).0 ≡ 0
      → IsCoherent
          (patch bio drive lba nsec bytes).bufs
          (view (dev.kwrite disk drive lba nsec bytes).1)
  patch-IsCoherent bio drive lba nsec bytes b c ok =
      let disk' : Disk = (dev.kwrite disk drive lba nsec bytes).1 in
      let after : ℕ → Buf Sector = (patch bio drive lba nsec bytes).bufs in
      record {
        unique = patch-IsUnique bio drive lba nsec bytes b c.unique;
        idle = λ k h.
            (patch-PatchedBuf bio drive lba nsec bytes b c.unique k h).busy_kept ∙ c.idle k h;
        agrees = λ k h v w u.
            let p = patch-PatchedBuf bio drive lba nsec bytes b c.unique k h in
            let before : (bio.bufs k).valid ≡ true = sym p.valid_kept ∙ v in
            let s : ℕ = (bio.bufs k).page * 8 + w in
            let held : (after k).body w ≡ view disk' (bio.bufs k).drive s =
              patched-agrees (bio.bufs k) (after k) drive lba nsec bytes p (c.idle k h) before
                (c.agrees k h before) ok w u in
            held ∙ ap₂ (λ d q. view disk' d (q * 8 + w)) (sym p.drive_kept) (sym p.page_kept);
      }

  -- A bio_write of sectors below 2 ^ 64 that the driver took leaves a coherent cache coherent
  -- with the new disk.
  pub write-IsCoherent :
      (bio : Bio Sector) (drive lba nsec : ℕ) (bytes : ℕ → Sector)
      → lba + nsec < 2 ^ 64
      → bio.ready ≡ true
      → IsCoherent bio.bufs (view disk)
      → (write dev disk bio drive lba nsec bytes).0 ≡ 0
      → IsCoherent
          (write dev disk bio drive lba nsec bytes).2.bufs
          (view (write dev disk bio drive lba nsec bytes).1)
  unfolding write
  write-IsCoherent bio drive lba nsec bytes b r c h = elim (Bool-cases (nsec == 0)) [
    | inl empty ↦ simp empty c
    | inr more ↦ elim (Bool-cases ((dev.kwrite disk drive lba nsec bytes).0 == 0)) [
      | inr err ↦ absurd (ground (arith, more, err, h))
      | inl ok ↦
          simp (more, ok, r) (patch-IsCoherent bio drive lba nsec bytes b c (ground (arith, ok)))
    ]
  ]

  write-ready :
      (bio : Bio Sector) (drive lba nsec : ℕ) (bytes : ℕ → Sector)
      → (write dev disk bio drive lba nsec bytes).2.ready ≡ bio.ready
  unfolding write patch
  write-ready bio drive lba nsec bytes = ground (
    arith,
    patch_from-ready nsec (record bio { n_write = add64 bio.n_write 1 }) drive lba 0 nsec bytes,
  )

  read-written :
      {drive lba nsec : ℕ} {out : ℕ → Sector} (bytes : ℕ → Sector)
      {r : Option (ℕ × (ℕ → Sector) × Bio Sector)}
      → Answered dev view law disk drive lba 0 nsec out r
      → ((j : ℕ) → j < nsec → view disk drive (lba + j) ≡ bytes j)
      → (o : ℕ × (ℕ → Sector) × Bio Sector) × (r ≡ some o)
        × (((o.0 ≡ 0) × ((j : ℕ) → j < nsec → o.1 j ≡ bytes j)) ⊎ (o.0 ≡ 1))
  read-written bytes (complete out' bio' c new old) taken =
      ((0, out', bio'), refl, inl (refl, λ j l. new j (omega arith) (omega arith) ∙ taken j l))
  read-written bytes (broke out' bio' p buf c l u e) taken = ((1, out', bio'), refl, inr refl)

  write-taken :
      (bio : Bio Sector) (drive lba nsec : ℕ) (bytes : ℕ → Sector)
      → (write dev disk bio drive lba nsec bytes).0 ≡ 0
      → (j : ℕ) → j < nsec
      → view (write dev disk bio drive lba nsec bytes).1 drive (lba + j) ≡ bytes j
  unfolding write
  write-taken bio drive lba nsec bytes h j l = elim (Bool-cases (nsec == 0)) [
    | inl empty ↦ absurd (ground (arith, empty))
    | inr more ↦ elim (Bool-cases ((dev.kwrite disk drive lba nsec bytes).0 == 0)) [
      | inr err ↦ absurd (ground (arith, more, err, h))
      | inl ok ↦ elim (Bool-cases bio.ready) [
        | inl r ↦
            simp (more, ok, r) (law.write_ok disk drive lba nsec bytes (ground (arith, ok)) j l)
        | inr r ↦
            simp (more, ok, r) (law.write_ok disk drive lba nsec bytes (ground (arith, ok)) j l)
      ]
    ]
  ]

module _ {Disk Sector : Type 0} (dev : Driver Disk Sector) (view : Disk → ℕ → ℕ → Sector)
    (law : IsFaithful dev view) where
  -- With a coherent cache and no fetch in flight, what a bio_write of sectors below 2 ^ 64 that
  -- succeeded wrote is what the next bio_read of the run reads, or that read answers 1, whatever
  -- was cached before.
  pub read-write :
      (disk : Disk) (fuel : ℕ) (bio : Bio Sector) (drive lba nsec : ℕ) (bytes out : ℕ → Sector)
      → nsec ≤ fuel
      → lba + nsec < 2 ^ 64
      → bio.ready ≡ true
      → IsCoherent bio.bufs (view disk)
      → (write dev disk bio drive lba nsec bytes).0 ≡ 0
      → (o : ℕ × (ℕ → Sector) × Bio Sector) × (read dev
            (write dev disk bio drive lba nsec bytes).1
            fuel
            (write dev disk bio drive lba nsec bytes).2
            drive
            lba
            nsec
            out
          ≡ some o)
        × (((o.0 ≡ 0) × ((j : ℕ) → j < nsec → o.1 j ≡ bytes j)) ⊎ (o.0 ≡ 1))
  read-write disk fuel bio drive lba nsec bytes out f b r c h =
      let w = write dev disk bio drive lba nsec bytes in
      read-written dev view law w.1 bytes
        (read-Answered dev view law w.1 fuel w.2 drive lba nsec out f b
          (write-ready dev view law disk bio drive lba nsec bytes ∙ r)
          (write-IsCoherent dev view law disk bio drive lba nsec bytes b r c h))
        (write-taken dev view law disk bio drive lba nsec bytes h)
