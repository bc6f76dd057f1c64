-- ===== src/Bio/Serial.antt =====
-- fs/bio.c: page_get, bio_read, bio_write and bio_sync as a thread runs them that no other interrupts.
use style9_os.Base.{
  ℕ, zero, suc, ◌+◌, ◌-◌, ◌*◌, ◌/◌, ◌%◌, ◌^◌, not, Option, none, some, ◌==◌, if◌then◌else◌, add64,
}
use style9_os.Bio.{
  Driver, Bio, Lookup, hit, wait, claim, Got, got, retry, failed, lookup, fill, finish, copy,
  run_at, patch,
}

module _ {Disk Sector : Type 0} (dev : Driver Disk Sector) (disk : Disk) where
  unfoldable pub fetch : Bio Sector → ℕ → ℕ → ℕ → Got × Bio Sector
  fetch bio drive page i =
      let (rv, bytes) = dev.kread disk drive (page * 8 % 2 ^ 64) 8 (bio.bufs i).body in
      finish (fill bio i bytes) i (rv == 0)

  unfoldable pub get_with : ℕ → ℕ → Lookup × Bio Sector → Got × Bio Sector
  get_with drive page (hit i, bio) = (got i, bio)
  get_with drive page (wait, bio) = (retry, bio)
  get_with drive page (claim i, bio) = fetch bio drive page i

  unfoldable pub page_get : Bio Sector → ℕ → ℕ → Got × Bio Sector
  page_get bio drive page = get_with drive page (lookup bio drive page)

  -- The loop of bio_read at `done`, with `left` sectors left, on fuel: the error, the bytes and the
  -- cache. `none` means that the fuel ran out.
  unfoldable pub read_from :
      ℕ → Bio Sector → ℕ → ℕ → ℕ → ℕ → (ℕ → Sector) → Option (ℕ × (ℕ → Sector) × Bio Sector)
  read_from zero bio drive lba done left out = if left == 0 then some (0, out, bio) else none
  read_from (suc fuel) bio drive lba done left out =
      let at = add64 lba done in
      let run = run_at at left in
      let (g, bio') = page_get bio drive (at / 8) in
      let next = λ (i : ℕ).
        read_from fuel bio' drive lba (done + run) (left - run)
          (copy out done (bio'.bufs i).body (at % 8) run) in
      let again = read_from fuel bio' drive lba done left out in
      let answer : Option (ℕ × (ℕ → Sector) × Bio Sector) = elim g [
        | got i ↦ next i
        | retry ↦ again
        | failed ↦ some (1, out, bio')
      ] in
      if left == 0 then some (0, out, bio) else answer

  unfoldable pub read :
      ℕ → Bio Sector → ℕ → ℕ → ℕ → (ℕ → Sector) → Option (ℕ × (ℕ → Sector) × Bio Sector)
  read fuel bio drive lba nsec out =
      let (rv, bytes) = dev.kread disk drive lba nsec out in
      if not bio.ready
      then some (rv, bytes, bio)
      else if nsec == 0
      then some (0, out, bio)
      else read_from fuel (record bio { n_req = add64 bio.n_req 1 }) drive lba 0 nsec out

  unfoldable pub write : Bio Sector → ℕ → ℕ → ℕ → (ℕ → Sector) → ℕ × Disk × Bio Sector
  write bio drive lba nsec bytes =
      let (rv, disk') = dev.kwrite disk drive lba nsec bytes in
      if nsec == 0
      then (0, disk, bio)
      else if not (rv == 0)
      then (rv, disk', bio)
      else if not bio.ready
      then (0, disk', bio)
      else (0, disk', patch bio drive lba nsec bytes)

  unfoldable pub sync : Bio Sector → ℕ → ℕ × Disk × Bio Sector
  sync bio drive =
      let (rv, disk') = dev.ksync disk drive in
      (rv, disk', record bio { n_sync = add64 bio.n_sync 1 })
