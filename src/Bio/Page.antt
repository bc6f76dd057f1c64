-- ===== src/Bio/Page.antt =====
-- page_get against the disk: what one thread that no other interrupts gets from it, for any driver
-- that reads and writes the sectors it is asked for.
use style9_os.Base.{
  ℕ, ◌+◌, ◌*◌, ◌%◌, ◌^◌, ◌≤◌, ◌<◌, ◌≡◌, refl, sym, subst, ◌∙◌, ◌≢◌, ◌⊎◌, inl, inr, true, false,
  Option, none, ◌==◌, Bool-cases, arith, fun_ext, ap₂, ℕ_discrete, add64,
}
use style9_os.Bio.{
  Driver, init, Buf, Bio, Found, no_page, Got, got, failed, names, nbufs, put_buf, touch, claim_buf,
  miss, looked_up, lookup, fill, finish,
}
use style9_os.Bio.Scan.{
  is_live, Scanned, busy_at, valid_at, absent, scan-Scanned, Picked, in_flight, victim, pick-Picked,
  all_busy,
}
use style9_os.Bio.Patch.{IsUnique, IsAlone, unique-apply, put-IsUnique, put_buf_self, put_buf-other}
use style9_os.Bio.Patched.{names-true, names-eq}
use style9_os.Bio.Serial.{fetch, get_with, page_get}

-- A driver that answers 0 has read, or written, the sectors that it was asked for.
pub record IsFaithful {Disk Sector : Type 0} (dev : Driver Disk Sector)
    (view : Disk → ℕ → ℕ → Sector) : Type 0 where
  pub read_ok :
      (disk : Disk) (drive lba n : ℕ) (out : ℕ → Sector)
      → (dev.kread disk drive lba n out).0 ≡ 0
      → (j : ℕ) → j < n
      → (dev.kread disk drive lba n out).1 j ≡ view disk drive (lba + j)
  pub write_ok :
      (disk : Disk) (drive lba n : ℕ) (bytes : ℕ → Sector)
      → (dev.kwrite disk drive lba n bytes).0 ≡ 0
      → (j : ℕ) → j < n
      → view (dev.kwrite disk drive lba n bytes).1 drive (lba + j) ≡ bytes j
  pub write_rest :
      (disk : Disk) (drive lba n : ℕ) (bytes : ℕ → Sector)
      → (dev.kwrite disk drive lba n bytes).0 ≡ 0
      → (d s : ℕ) → (d ≢ drive) ⊎ (s < lba) ⊎ (lba + n ≤ s)
      → view (dev.kwrite disk drive lba n bytes).1 d s ≡ view disk d s

module _ {Sector : Type 0} where
  -- No fetch is in flight, no page is cached twice, and every valid page holds the sectors of `at`.
  pub record IsCoherent (bufs : ℕ → Buf Sector) (at : ℕ → ℕ → Sector) : Type 0 where
    pub unique : IsUnique bufs
    pub idle : (k : ℕ) → k < 64 → (bufs k).busy ≡ false
    pub agrees :
        (k : ℕ)
        → k < 64
        → (bufs k).valid ≡ true
        → (w : ℕ) → w < 8
        → (bufs k).body w ≡ at (bufs k).drive ((bufs k).page * 8 + w)

  -- bio_init leaves a cache that is coherent with any disk.
  pub init-IsCoherent :
      (bio : Bio Sector) (at : ℕ → ℕ → Sector)
      → ((k : ℕ) → k < 64 → (bio.bufs k).busy ≡ false)
      → IsCoherent (init true bio).bufs at
  unfolding init IsUnique
  init-IsCoherent bio at idle = record {
    unique = λ i j hi hj ep ed li. absurd (ground (arith, li, idle i hi));
    idle = idle;
    agrees = λ k h v. absurd (ground (arith, v));
  }

  -- A buffer is replaced by one that agrees with the disk and holds no page that another holds.
  put-IsCoherent :
      (bufs : ℕ → Buf Sector) (at : ℕ → ℕ → Sector) (i : ℕ) (b : Buf Sector)
      → IsCoherent bufs at
      → b.busy ≡ false
      → (b.valid ≡ true → (w : ℕ) → w < 8 → b.body w ≡ at b.drive (b.page * 8 + w))
      → IsAlone bufs i b
      → IsCoherent (put_buf bufs i b) at
  put-IsCoherent bufs at i b c quiet same alone = record {
    unique = put-IsUnique bufs i b c.unique alone;
    idle = λ k h. ground (arith, c.idle k h);
    agrees = λ k h v w u. elim (ℕ_discrete k i) [
      | yes e ↦
          let here = put_buf_self bufs i b k e in
          subst (λ x. x.body w ≡ at x.drive (x.page * 8 + w)) (sym here)
            (same (subst (λ x. x.valid ≡ true) here v) w u)
      | no ne ↦
          let here = put_buf-other bufs i b k ne in
          subst (λ x. x.body w ≡ at x.drive (x.page * 8 + w)) (sym here)
            (c.agrees k h (subst (λ x. x.valid ≡ true) here v) w u)
    ];
  }

  -- putting twice at an index
  put_buf-put_buf :
      (bufs : ℕ → Buf Sector) (i : ℕ) (a b : Buf Sector)
      → put_buf (put_buf bufs i a) i b ≡ put_buf bufs i b
  put_buf-put_buf bufs i a b = fun_ext (λ j. ground arith)

module _ {Disk Sector : Type 0} (dev : Driver Disk Sector) (view : Disk → ℕ → ℕ → Sector)
    (law : IsFaithful dev view) (disk : Disk) where
  -- What page_get answers: a buffer with the page's sectors, or nothing where the driver failed.
  pub data PageGot (drive page : ℕ) : Got × Bio Sector → Type 0 where
    found :
        (i : ℕ) (bio' : Bio Sector)
        → IsCoherent bio'.bufs (view disk)
        → ((w : ℕ) → w < 8 → (bio'.bufs i).body w ≡ view disk drive (page * 8 + w))
        → PageGot drive page (got i, bio')
    broken :
        (bio' : Bio Sector) (buf : ℕ → Sector)
        → IsCoherent bio'.bufs (view disk)
        → (dev.kread disk drive (page * 8) 8 buf).0 ≢ 0
        → PageGot drive page (failed, bio')

  fetched :
      (bio : Bio Sector) (drive page v : ℕ) (bytes buf : ℕ → Sector) (rv : ℕ)
      → IsCoherent bio.bufs (view disk)
      → ((k : ℕ) → k < 64 → names (bio.bufs k) drive page ≡ true → is_live (bio.bufs k) ≡ false)
      → (rv ≢ 0 → (dev.kread disk drive (page * 8) 8 buf).0 ≢ 0)
      → (rv ≡ 0 → (w : ℕ) → w < 8 → bytes w ≡ view disk drive (page * 8 + w))
      → PageGot drive page (finish (fill (claim_buf bio v drive page) v bytes) v (rv == 0))
  unfolding finish fill claim_buf
  fetched bio drive page v bytes buf rv c gone bad good =
      let self : (v == v) ≡ true = ground arith in
      elim (Bool-cases (rv == 0)) [
        | inl ok ↦
            let b : Buf Sector = record (bio.bufs v) {
              page = page;
              stamp = add64 bio.clock 1;
              body = bytes;
              drive = drive;
              valid = true;
              busy = false;
              stale = false;
            } in
            let here = good (ground (arith, ok)) in
            let alone : IsAlone bio.bufs v b = λ l k h n live ep ed.
              absurd (ground (arith, gone k h (names-true (bio.bufs k) drive page ep ed), live)) in
            simp (ok, self, put_buf-put_buf)
              (found v _ (put-IsCoherent bio.bufs (view disk) v b c refl (λ q. here) alone)
                (λ w h. rw self (here w h)))
        | inr err ↦
            let b : Buf Sector = record (bio.bufs v) {
              page = no_page;
              body = bytes;
              drive = drive;
              valid = false;
              busy = false;
              stale = false;
            } in
            simp (err, self, put_buf-put_buf)
              (broken _ buf
                (put-IsCoherent bio.bufs (view disk) v b c refl (λ q. absurd (ground (arith, q)))
                  (λ l. absurd (ground (arith, l))))
                (bad (ground (arith, err))))
      ]

  missed :
      (bio : Bio Sector) (drive page : ℕ) (o : Option ℕ)
      → page * 8 < 2 ^ 64
      → IsCoherent bio.bufs (view disk)
      → ((k : ℕ) → k < 64 → names (bio.bufs k) drive page ≡ true → is_live (bio.bufs k) ≡ false)
      → Picked bio.bufs 64 o
      → PageGot drive page (get_with dev disk drive page (miss bio drive page o))
  unfolding get_with miss fetch
  missed bio drive page _ small c gone (in_flight all) =
      absurd (ground (arith, all 0 (omega arith), c.idle 0 (omega arith)))
  missed bio drive page _ small c gone (victim v w) =
      let at : page * 8 % 2 ^ 64 ≡ page * 8 = omega arith in
      let buf : ℕ → Sector = ((claim_buf bio v drive page).bufs v).body in
      subst
        (λ lba. PageGot drive page (
          finish (fill (claim_buf bio v drive page) v (dev.kread disk drive lba 8 buf).1) v
            ((dev.kread disk drive lba 8 buf).0 == 0)))
        (sym at)
        (fetched bio drive page v (dev.kread disk drive (page * 8) 8 buf).1 buf
          (dev.kread disk drive (page * 8) 8 buf).0 c gone (λ h. h)
          (law.read_ok disk drive (page * 8) 8 buf))

  looked_up-PageGot :
      (bio : Bio Sector) (drive page : ℕ) (f : Found)
      → page * 8 < 2 ^ 64
      → IsCoherent bio.bufs (view disk)
      → Scanned bio.bufs drive page 0 64 f
      → PageGot drive page (get_with dev disk drive page (looked_up bio drive page f))
  unfolding get_with looked_up touch
  looked_up-PageGot bio drive page _ small c (busy_at k l u n b) =
      absurd (ground (arith, c.idle k u, b))
  looked_up-PageGot bio drive page _ small c (valid_at k l u n b v) =
      let x : Buf Sector = record (bio.bufs k) { stamp = add64 bio.clock 1 } in
      let same = c.agrees k u v in
      let self : (k == k) ≡ true = ground arith in
      let is = names-eq (bio.bufs k) drive page n in
      found k _
        (put-IsCoherent bio.bufs (view disk) k x c b (λ q. same)
          (λ live j h ne lj ep ed. ne (unique-apply bio.bufs j k c.unique h u ep ed lj live)))
        (λ w h. rw self (same w h ∙ ap₂ (λ d p. view disk d (p * 8 + w)) is.1 is.0))
  looked_up-PageGot bio drive page _ small c (absent gone) =
      missed bio drive page _ small c (λ k h. gone k (omega arith) h)
        (pick-Picked nbufs bio.bufs 0 64 none refl (all_busy (λ k h. absurd (omega arith))))

  -- page_get, when no fetch is in flight, always answers, and what it answers is the page.
  pub page_get-PageGot :
      (bio : Bio Sector) (drive page : ℕ)
      → page * 8 < 2 ^ 64
      → IsCoherent bio.bufs (view disk)
      → PageGot drive page (page_get dev disk bio drive page)
  unfolding page_get lookup
  page_get-PageGot bio drive page small c =
      looked_up-PageGot bio drive page _ small c (scan-Scanned nbufs bio.bufs drive page 0 64 refl)
