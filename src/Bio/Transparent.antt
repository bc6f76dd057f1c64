-- ===== src/Bio/Transparent.antt =====
-- bio_read against the disk, for one thread that no other interrupts.
use style9_os.Base.{
  ℕ, zero, suc, ◌+◌, ◌-◌, ◌*◌, ◌/◌, ◌%◌, ◌^◌, ◌≤◌, ◌<◌, ◌≡◌, refl, ap, ◌∙◌, ◌≢◌, ◌⊎◌, inl, inr,
  true, false, ◌&&◌, Option, some, ltb, leb, ◌==◌, Bool-cases, arith, dec_lt, add64,
}
use style9_os.Bio.{Driver, Bio, Got, got, failed, copy, run_at}
use style9_os.Bio.Patching.{run_at-fits, run_at-pos}
use style9_os.Bio.Serial.{read_from, read}
use style9_os.Bio.Page.{IsFaithful, IsCoherent, PageGot, found, broken, page_get-PageGot}

module _ {Disk Sector : Type 0} (dev : Driver Disk Sector) (view : Disk → ℕ → ℕ → Sector)
    (law : IsFaithful dev view) (disk : Disk) where
  PageGot-cases :
      {drive page : ℕ} {r : Got × Bio Sector}
      → PageGot dev view law disk drive page r
      → ((i : ℕ) × (r.0 ≡ got i)
          × IsCoherent r.1.bufs (view disk)
          × ((w : ℕ) → w < 8 → (r.1.bufs i).body w ≡ view disk drive (page * 8 + w)))
        ⊎ ((buf : ℕ → Sector) × (r.0 ≡ failed)
            × IsCoherent r.1.bufs (view disk)
            × ((dev.kread disk drive (page * 8) 8 buf).0 ≢ 0))
  PageGot-cases (found i bio' c b) = inl (i, refl, c, b)
  PageGot-cases (broken bio' buf c e) = inr (buf, refl, c, e)

  -- What bio_read answers: all the sectors asked for, with the rest of the caller's buffer unchanged,
  -- or 1 where the driver failed on a page of the run. The cache agrees with the disk in both.
  pub data Answered (drive lba done left : ℕ) (out : ℕ → Sector)
      : Option (ℕ × (ℕ → Sector) × Bio Sector) → Type 0 where
    complete :
        (out' : ℕ → Sector) (bio' : Bio Sector)
        → IsCoherent bio'.bufs (view disk)
        → ((j : ℕ) → done ≤ j → j < done + left → out' j ≡ view disk drive (lba + j))
        → ((j : ℕ) → (j < done) ⊎ (done + left ≤ j) → out' j ≡ out j)
        → Answered drive lba done left out (some (0, out', bio'))
    broke :
        (out' : ℕ → Sector) (bio' : Bio Sector) (page : ℕ) (buf : ℕ → Sector)
        → IsCoherent bio'.bufs (view disk)
        → page * 8 < lba + done + left
        → lba + done < page * 8 + 8
        → (dev.kread disk drive (page * 8) 8 buf).0 ≢ 0
        → Answered drive lba done left out (some (1, out', bio'))

  -- a run copied from a page, and the answer for what is left after it
  Answered-run :
      (drive lba done left run page within : ℕ) (out body : ℕ → Sector)
      {r : Option (ℕ × (ℕ → Sector) × Bio Sector)}
      → page * 8 + within ≡ lba + done
      → within + run ≤ 8
      → run ≤ left
      → ((w : ℕ) → w < 8 → body w ≡ view disk drive (page * 8 + w))
      → Answered drive lba (done + run) (left - run) (copy out done body within run) r
      → Answered drive lba done left out r
  unfolding copy
  Answered-run drive lba done left run page within out body e fits small same
        (complete out' bio' c new old) =
      complete out' bio' c
        (λ j l u. elim (dec_lt j (done + run)) [
          | yes early ↦
              let inside : (leb done j && ltb j (done + run)) ≡ true = ground arith in
              let at : page * 8 + (within + (j - done)) ≡ lba + j = omega arith in
              old j (inl early)
              ∙ rw inside (same (within + (j - done)) (omega arith) ∙ ap (view disk drive) at)
          | no late ↦ new j (omega arith) (omega arith)
        ])
        (λ j o.
          let outside : (leb done j && ltb j (done + run)) ≡ false = ground (arith, o) in
          old j (ground (arith, o)) ∙ rw outside refl)
  Answered-run drive lba done left run page within out body e fits small same
        (broke out' bio' p buf c l u err) =
      broke out' bio' p buf c (omega arith) (omega arith) err

  pub read_from-Answered :
      (fuel : ℕ) (bio : Bio Sector) (drive lba done left : ℕ) (out : ℕ → Sector)
      → left ≤ fuel
      → lba + done + left < 2 ^ 64
      → IsCoherent bio.bufs (view disk)
      → Answered drive lba done left out (read_from dev disk fuel bio drive lba done left out)
  unfolding read_from
  read_from-Answered zero bio drive lba done left out f b c =
      let stop : (left == 0) ≡ true = ground arith in
      rw stop (complete out bio c (λ j l u. absurd (omega arith)) (λ j o. refl))
  read_from-Answered (suc fuel) bio drive lba done left out f b c = elim (Bool-cases (left == 0)) [
    | inl stop ↦ rw stop (complete out bio c (λ j l u. absurd (ground (arith, stop))) (λ j o. refl))
    | inr more ↦
        let at : ℕ = add64 lba done in
        let same : at ≡ lba + done = omega arith in
        let run : ℕ = run_at at left in
        let fits = run_at-fits at left in
        let pos : 0 < run = run_at-pos at left (ground arith) in
        elim (PageGot-cases
          (page_get-PageGot dev view law disk bio drive (at / 8) (omega arith) c)) [
            | inl (i, g, c', body) ↦
                simp (more, g)
                  (Answered-run drive lba done left run (at / 8) (at % 8) out _ (omega arith)
                    (omega arith) (omega arith) body
                    (read_from-Answered fuel _ drive lba (done + run) (left - run) _ (omega arith)
                      (omega arith) c'))
            | inr (buf, g, c', err) ↦
                simp (more, g) (broke out _ (at / 8) buf c' (omega arith) (omega arith) err)
          ]
  ]

  -- With a coherent cache, and no fetch in flight, bio_read of sectors below 2 ^ 64 ends, with
  -- fuel for each sector. It answers 0 and exactly the disk's sectors, with the rest of the
  -- buffer unchanged, or 1 because the driver failed on a page of the run; the cache stays
  -- coherent.
  pub read-Answered :
      (fuel : ℕ) (bio : Bio Sector) (drive lba nsec : ℕ) (out : ℕ → Sector)
      → nsec ≤ fuel
      → lba + nsec < 2 ^ 64
      → bio.ready ≡ true
      → IsCoherent bio.bufs (view disk)
      → Answered drive lba 0 nsec out (read dev disk fuel bio drive lba nsec out)
  unfolding read
  read-Answered fuel bio drive lba nsec out f b r c = elim (Bool-cases (nsec == 0)) [
    | inl empty ↦
        simp (r, empty) (complete out bio c (λ j l u. absurd (ground (arith, empty))) (λ j o. refl))
    | inr more ↦
        simp (r, more)
          (read_from-Answered fuel (record bio { ready = true; n_req = add64 bio.n_req 1 }) drive
            lba 0 nsec out f (omega arith) c)
  ]
