-- ===== src/Bio.antt =====
-- fs/bio.c: the block cache. The array of buffers is a function on its indices, of which the first 64
-- count; a page's bytes are a function from its eight sectors. bio_lock is held except while the
-- driver works, so `lookup`, `finish`, `patch` and `invalidate_drive` are one step each. The driver
-- of dev/ata_drv.c is the parameter `dev`.
mod Tests
pub mod Serial
pub mod Scan
pub mod Patch
pub mod Patched
pub mod Patching
pub mod Page
pub mod Concurrent
pub mod Coherence
pub mod Waits
pub mod Transparent
pub mod Writing
use style9_os.Base.{
  ℕ, zero, suc, ◌+◌, ◌-◌, ◌*◌, ◌/◌, ◌%◌, ◌^◌, ◌≡◌, Bool, true, false, not, ◌&&◌, ◌||◌, Option, none,
  some, ltb, leb, ◌==◌, if◌then◌else◌, add64,
}

-- ata_kread, ata_kwrite and ata_ksync: the error, 0 for none, and what is in the caller's buffer or on
-- the disk afterwards.
pub record Driver (Disk Sector : Type 0) : Type 0 where
  pub kread : Disk → ℕ → ℕ → ℕ → (ℕ → Sector) → ℕ × (ℕ → Sector)
  pub kwrite : Disk → ℕ → ℕ → ℕ → (ℕ → Sector) → ℕ × Disk
  pub ksync : Disk → ℕ → ℕ × Disk

-- struct bio_buf
pub record Buf (Sector : Type 0) : Type 0 where
  pub page : ℕ
  pub stamp : ℕ
  pub body : ℕ → Sector
  pub drive : ℕ
  pub valid : Bool
  pub busy : Bool
  pub stale : Bool

pub record Bio (Sector : Type 0) : Type 0 where
  pub bufs : ℕ → Buf Sector
  pub clock : ℕ
  pub ready : Bool
  pub n_req : ℕ
  pub n_hit : ℕ
  pub n_miss : ℕ
  pub n_evict : ℕ
  pub n_write : ℕ
  pub n_patch : ℕ
  pub n_sync : ℕ

-- BIO_NBUFS
abbrev pub nbufs : ℕ
nbufs = 64

-- `(uint64_t)-1`, the page of no disk
abbrev pub no_page : ℕ
no_page = 2 ^ 64 - 1

abbrev pub no_drive : ℕ
no_drive = 2 ^ 32 - 1

-- what the first loop of page_get finds
pub data Found : Type 0 where
  at_busy : ℕ → Found
  at_valid : ℕ → Found
  nowhere : Found

-- what page_get does before it drops the lock: a hit, a wait, or a claimed buffer to fetch into
pub data Lookup : Type 0 where
  hit : ℕ → Lookup
  wait : Lookup
  claim : ℕ → Lookup

-- what page_get answers: a buffer, NULL with *retry, or NULL
pub data Got : Type 0 where
  got : ℕ → Got
  retry : Got
  failed : Got

-- the sectors of the page at `at` that a run of `left` sectors takes
abbrev pub run_at : ℕ → ℕ → ℕ
run_at at left = let run = 8 - at % 8 in if ltb left run then left else run

module _ {Sector : Type 0} where
  abbrev pub put_buf : (ℕ → Buf Sector) → ℕ → Buf Sector → ℕ → Buf Sector
  put_buf bufs i b j = if j == i then b else bufs j

  abbrev pub with_buf : Bio Sector → ℕ → Buf Sector → Bio Sector
  with_buf bio i b = record bio { bufs = put_buf bio.bufs i b }

  abbrev pub names : Buf Sector → ℕ → ℕ → Bool
  names b drive page = b.page == page && b.drive == drive

  -- bio_init, and whether kmalloc had the memory
  unfoldable pub init : Bool → Bio Sector → Bio Sector
  init mem bio =
      if mem
      then record bio {
        bufs = λ i. record (bio.bufs i) { page = no_page; drive = no_drive; valid = false };
        ready = true;
      }
      else bio

  -- the first loop of page_get, with `left` buffers left from `i`
  unfoldable pub scan : ℕ → (ℕ → Buf Sector) → ℕ → ℕ → ℕ → Found
  scan zero bufs drive page i = nowhere
  scan (suc left) bufs drive page i =
      let rest = scan left bufs drive page (suc i) in
      if not (names (bufs i) drive page)
      then rest
      else if (bufs i).busy
      then at_busy i
      else if (bufs i).valid
      then at_valid i
      else rest

  -- whether buffer `i` was used less recently than the victim so far
  unfoldable pub better : (ℕ → Buf Sector) → ℕ → Option ℕ → Bool
  better bufs i none = true
  better bufs i (some v) = ltb (bufs i).stamp (bufs v).stamp

  -- the second loop of page_get, with the victim so far
  unfoldable pub pick : ℕ → (ℕ → Buf Sector) → ℕ → Option ℕ → Option ℕ
  pick zero bufs i best = best
  pick (suc left) bufs i best =
      let skip = pick left bufs (suc i) best in
      let take = pick left bufs (suc i) (some i) in
      if (bufs i).busy
      then skip
      else if not (bufs i).valid
      then some i
      else if better bufs i best
      then take
      else skip

  abbrev pub claimed : Buf Sector → ℕ → ℕ → Buf Sector
  claimed b drive page = record b {
    valid = false;
    busy = true;
    stale = false;
    page = page;
    drive = drive;
  }

  unfoldable pub touch : Bio Sector → ℕ → Bio Sector
  touch bio i = record (with_buf bio i (record (bio.bufs i) { stamp = add64 bio.clock 1 })) {
    clock = add64 bio.clock 1;
    n_hit = add64 bio.n_hit 1;
  }

  unfoldable pub claim_buf : Bio Sector → ℕ → ℕ → ℕ → Bio Sector
  claim_buf bio i drive page = record (with_buf bio i (claimed (bio.bufs i) drive page)) {
    n_evict = if (bio.bufs i).valid then add64 bio.n_evict 1 else bio.n_evict;
  }

  unfoldable pub miss : Bio Sector → ℕ → ℕ → Option ℕ → Lookup × Bio Sector
  miss bio drive page none = (wait, bio)
  miss bio drive page (some i) = (claim i, claim_buf bio i drive page)

  unfoldable pub looked_up : Bio Sector → ℕ → ℕ → Found → Lookup × Bio Sector
  looked_up bio drive page (at_busy i) = (wait, bio)
  looked_up bio drive page (at_valid i) = (hit i, touch bio i)
  looked_up bio drive page nowhere = miss bio drive page (pick nbufs bio.bufs 0 none)

  unfoldable pub lookup : Bio Sector → ℕ → ℕ → Lookup × Bio Sector
  lookup bio drive page = looked_up bio drive page (scan nbufs bio.bufs drive page 0)

  -- the driver's bytes in the claimed buffer
  unfoldable pub fill : Bio Sector → ℕ → (ℕ → Sector) → Bio Sector
  fill bio i bytes = with_buf bio i (record (bio.bufs i) { body = bytes })

  -- page_get from the end of the fetch, by whether the driver succeeded
  unfoldable pub finish : Bio Sector → ℕ → Bool → Got × Bio Sector
  finish bio i ok =
      let b : Buf Sector = record (bio.bufs i) { busy = false } in
      if not ok
      then (failed, with_buf bio i (record b { page = no_page }))
      else if b.stale
      then (retry, with_buf bio i (record b { stale = false; page = no_page }))
      else (
        got i,
        record (with_buf bio i (record b { stamp = add64 bio.clock 1; valid = true })) {
          clock = add64 bio.clock 1;
          n_miss = add64 bio.n_miss 1;
        },
      )

  -- mem_copy of sectors: `run` of them, from `src` at `from` to `dst` at `to`
  unfoldable pub copy : (ℕ → Sector) → ℕ → (ℕ → Sector) → ℕ → ℕ → ℕ → Sector
  copy dst to src from run j = if leb to j && ltb j (to + run) then src (from + (j - to)) else dst j

  -- the inner loop of bio_write, with `left` buffers left from `i`: whether one was patched
  unfoldable pub patch_page :
      ℕ → (ℕ → Buf Sector) → ℕ → ℕ → ((ℕ → Sector) → ℕ → Sector) → ℕ → Bool × (ℕ → Buf Sector)
  patch_page zero bufs drive page fix i = (false, bufs)
  patch_page (suc left) bufs drive page fix i =
      let rest = patch_page left bufs drive page fix (suc i) in
      if not (names (bufs i) drive page)
      then rest
      else if (bufs i).busy
      then (false, put_buf bufs i (record (bufs i) { stale = true }))
      else if not (bufs i).valid
      then rest
      else (true, put_buf bufs i (record (bufs i) { body = fix (bufs i).body }))

  -- one round of the outer loop of bio_write: the `run` sectors from `at` on, which lie in one page
  unfoldable pub patch_run : Bio Sector → ℕ → ℕ → ℕ → ℕ → (ℕ → Sector) → Bio Sector
  patch_run bio drive at done run bytes =
      let fixed =
        patch_page nbufs bio.bufs drive (at / 8) (λ body. copy body (at % 8) bytes done run) 0 in
      record bio { bufs = fixed.1; n_patch = if fixed.0 then add64 bio.n_patch 1 else bio.n_patch }

  -- the outer loop of bio_write at `done`, with `left` sectors left, on fuel
  unfoldable pub patch_from : ℕ → Bio Sector → ℕ → ℕ → ℕ → ℕ → (ℕ → Sector) → Bio Sector
  patch_from zero bio drive lba done left bytes = bio
  patch_from (suc fuel) bio drive lba done left bytes =
      let at = add64 lba done in
      let run = run_at at left in
      let bio' = patch_run bio drive at done run bytes in
      let rest = patch_from fuel bio' drive lba (done + run) (left - run) bytes in
      if left == 0 then bio else rest

  -- bio_write after the device took the bytes
  unfoldable pub patch : Bio Sector → ℕ → ℕ → ℕ → (ℕ → Sector) → Bio Sector
  patch bio drive lba nsec bytes =
      patch_from nsec (record bio { n_write = add64 bio.n_write 1 }) drive lba 0 nsec bytes

  unfoldable pub invalidate_drive : Bio Sector → ℕ → Bio Sector
  invalidate_drive bio drive = if not bio.ready then bio else record bio {
    bufs = λ i.
        if ltb i nbufs && (bio.bufs i).drive == drive
        then record (bio.bufs i) { valid = false }
        else bio.bufs i;
  }
