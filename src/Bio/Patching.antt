-- ===== src/Bio/Patching.antt =====
-- What a write leaves in each buffer: the loops of bio_write over the pages of its run.
use style9_os.Base.{
  ℕ, zero, suc, ◌+◌, ◌-◌, ◌/◌, ◌%◌, ◌^◌, ◌≤◌, ◌<◌, ◌≡◌, refl, sym, subst, subst₂, ◌∙◌, ◌≢◌, inl,
  inr, ◌==◌, Bool-cases, arith, add64,
}
use style9_os.Bio.{Buf, Bio, nbufs, copy, run_at, patch_run, patch_from, patch}
use style9_os.Bio.Patch.{IsUnique, patch_page-Patched}
use style9_os.Bio.Patched.{PatchedBuf, PatchedBuf-refl, PatchedBuf-one, PatchedBuf-trans}

pub run_at-fits : (at left : ℕ) → (run_at at left ≤ left) × (run_at at left ≤ 8 - at % 8)
run_at-fits at left = ground arith

pub run_at-pos : (at left : ℕ) → left ≢ 0 → 0 < run_at at left
run_at-pos at left h = ground arith

module _ {Sector : Type 0} where
  IsUnique-kept :
      (bufs bufs' : ℕ → Buf Sector) (drive lo hi : ℕ) (new : ℕ → Sector)
      → ((k : ℕ) → k < 64 → PatchedBuf (bufs k) (bufs' k) drive lo hi new)
      → IsUnique bufs
      → IsUnique bufs'
  unfolding IsUnique
  IsUnique-kept bufs bufs' drive lo hi new p u i j hi' hj ep ed li lj =
      let pi = p i hi' in
      let pj = p j hj in
      u i j hi' hj (sym pi.page_kept ∙ ep ∙ pj.page_kept) (sym pi.drive_kept ∙ ed ∙ pj.drive_kept)
        (ground (arith, pi.busy_kept, pi.valid_kept, li))
        (ground (arith, pj.busy_kept, pj.valid_kept, lj))

  PatchedBuf-cast :
      (a b : Buf Sector) (drive : ℕ) {lo lo' hi hi' : ℕ} (new : ℕ → Sector)
      → lo ≡ lo'
      → hi ≡ hi'
      → PatchedBuf a b drive lo hi new
      → PatchedBuf a b drive lo' hi' new
  PatchedBuf-cast a b drive new e f p = subst₂ (λ lo hi. PatchedBuf a b drive lo hi new) e f p

  patch_run-PatchedBuf :
      (bio : Bio Sector) (drive lba done at run : ℕ) (bytes : ℕ → Sector)
      → at ≡ lba + done
      → run ≤ 8 - at % 8
      → IsUnique bio.bufs
      → (k : ℕ) → k < 64
      → PatchedBuf
          (bio.bufs k)
          ((patch_run bio drive at done run bytes).bufs k)
          drive
          at
          (at + run)
          (λ s. bytes (s - lba))
  unfolding patch_run
  patch_run-PatchedBuf bio drive lba done at run bytes e r u k h =
      let fix : (ℕ → Sector) → ℕ → Sector = λ body. copy body (at % 8) bytes done run in
      let all = patch_page-Patched nbufs bio.bufs drive (at / 8) 0 fix refl u in
      subst (λ b. PatchedBuf (bio.bufs k) b drive at (at + run) (λ s. bytes (s - lba)))
        (sym (all.inside k (omega arith) h))
        (PatchedBuf-one (bio.bufs k) drive lba done at run bytes e r)

  pub patch_from-PatchedBuf :
      (fuel : ℕ) (bio : Bio Sector) (drive lba done left : ℕ) (bytes : ℕ → Sector)
      → left ≤ fuel
      → lba + done + left < 2 ^ 64
      → IsUnique bio.bufs
      → (k : ℕ) → k < 64
      → PatchedBuf
          (bio.bufs k)
          ((patch_from fuel bio drive lba done left bytes).bufs k)
          drive
          (lba + done)
          (lba + done + left)
          (λ s. bytes (s - lba))
  unfolding patch_from
  patch_from-PatchedBuf zero bio drive lba done left bytes f b u k h =
      PatchedBuf-cast (bio.bufs k) (bio.bufs k) drive (λ s. bytes (s - lba)) refl (omega arith)
        (PatchedBuf-refl (bio.bufs k) drive (lba + done) (λ s. bytes (s - lba)))
  patch_from-PatchedBuf (suc fuel) bio drive lba done left bytes f b u k h =
      elim (Bool-cases (left == 0)) [
        | inl stop ↦
            let none_left : lba + done ≡ lba + done + left = ground arith in
            simp stop (
              PatchedBuf-cast (bio.bufs k) (bio.bufs k) drive (λ s. bytes (s - lba)) refl none_left
                (PatchedBuf-refl (bio.bufs k) drive (lba + done) (λ s. bytes (s - lba))))
        | inr more ↦
            let new : ℕ → Sector = λ s. bytes (s - lba) in
            let at : ℕ = add64 lba done in
            let same : at ≡ lba + done = omega arith in
            let run : ℕ = run_at at left in
            let fits = run_at-fits at left in
            let pos : 0 < run = run_at-pos at left (ground arith) in
            let bio' : Bio Sector = patch_run bio drive at done run bytes in
            let first = patch_run-PatchedBuf bio drive lba done at run bytes same fits.1 u in
            let u' : IsUnique bio'.bufs =
              IsUnique-kept bio.bufs bio'.bufs drive at (at + run) new first u in
            let last : Buf Sector =
              (patch_from fuel bio' drive lba (done + run) (left - run) bytes).bufs k in
            let mid_eq : lba + (done + run) ≡ at + run = omega arith in
            let hi_eq : lba + (done + run) + (left - run) ≡ lba + done + left = omega arith in
            let rest : PatchedBuf (bio'.bufs k) last drive (at + run) (lba + done + left) new =
              PatchedBuf-cast (bio'.bufs k) last drive new mid_eq hi_eq (
                patch_from-PatchedBuf fuel bio' drive lba (done + run) (left - run) bytes
                  (omega arith) (omega arith) u' k h) in
            let both =
              PatchedBuf-trans (bio.bufs k) (bio'.bufs k) last drive at (at + run)
                (lba + done + left) new (omega arith) (omega arith) (first k h) rest in
            simp more (PatchedBuf-cast (bio.bufs k) last drive new same refl both)
      ]

  -- After a write every buffer agrees with the bytes that the disk took: a valid page holds them where
  -- it overlaps the run and its old bytes elsewhere, and a page in flight that overlaps is stale.
  pub patch-PatchedBuf :
      (bio : Bio Sector) (drive lba nsec : ℕ) (bytes : ℕ → Sector)
      → lba + nsec < 2 ^ 64
      → IsUnique bio.bufs
      → (k : ℕ) → k < 64
      → PatchedBuf
          (bio.bufs k)
          ((patch bio drive lba nsec bytes).bufs k)
          drive
          lba
          (lba + nsec)
          (λ s. bytes (s - lba))
  unfolding patch
  patch-PatchedBuf bio drive lba nsec bytes b u k h =
      let bio' : Bio Sector = record bio { n_write = add64 bio.n_write 1 } in
      let lo : lba + 0 ≡ lba = omega arith in
      let hi : lba + 0 + nsec ≡ lba + nsec = omega arith in
      PatchedBuf-cast (bio.bufs k) ((patch bio drive lba nsec bytes).bufs k) drive
        (λ s. bytes (s - lba)) lo hi
        (patch_from-PatchedBuf nsec bio' drive lba 0 nsec bytes (omega arith) (omega arith) u k h)

  pub patch-IsUnique :
      (bio : Bio Sector) (drive lba nsec : ℕ) (bytes : ℕ → Sector)
      → lba + nsec < 2 ^ 64
      → IsUnique bio.bufs
      → IsUnique (patch bio drive lba nsec bytes).bufs
  patch-IsUnique bio drive lba nsec bytes b u =
      IsUnique-kept bio.bufs _ drive lba (lba + nsec) (λ s. bytes (s - lba))
        (patch-PatchedBuf bio drive lba nsec bytes b u) u
