-- ===== src/Bio/Concurrent.antt =====
-- The threads that share the cache, as steps. bio_lock is held except while the driver works, so
-- each step is what page_get or bio_write does between two waits, and the driver moves one sector at a
-- time between them. A fetch asks for the page of a sector below 2 ^ 64, whose number times eight
-- does not wrap. The cache can lose track of a sector in three ways: two writes of it are in flight at once,
-- a write is given up after it was stored, or dev/ata_drv.c writes it around the cache. Each is a step,
-- which also puts the sector among the `marked` ones, a record that no code keeps.
use style9_os.Base.{
  ℕ, put, ◌+◌, ◌-◌, ◌*◌, ◌^◌, ◌≤◌, ◌<◌, ◌≡◌, Bool, true, false, ◌&&◌, ◌||◌, leb, ltb, Option, none,
  some, ◌==◌, if◌then◌else◌,
}
use style9_os.Bio.{Bio, Lookup, hit, wait, claim, with_buf, lookup, finish, patch, invalidate_drive}

-- bio_write(drive, lba, nsec, buf) while the driver has it
pub record Write (Sector : Type 0) : Type 0 where
  pub drive : ℕ
  pub lba : ℕ
  pub nsec : ℕ
  pub bytes : ℕ → Sector

module _ {Sector : Type 0} where
  -- the run of a write has the sector
  abbrev pub Holds : Write Sector → ℕ → ℕ → Type 0
  Holds p d s = (d ≡ p.drive) × (p.lba ≤ s) × (s < p.lba + p.nsec)

  abbrev pub Apart : Write Sector → Write Sector → Type 0
  Apart p q = (d s : ℕ) → Holds p d s → ¬ Holds q d s

-- nothing of a page that a lookup has just claimed has arrived
unfoldable pub loaded_after : Lookup → (ℕ → ℕ → Bool) → ℕ → ℕ → Bool
loaded_after (hit i) loaded = loaded
loaded_after wait loaded = loaded
loaded_after (claim i) loaded = put loaded i (λ w. false)

-- The cache, the disks' sectors, each thread's write with the sectors of it that are on the disk, and
-- the sectors of each page in flight that have arrived; and the sectors that the cache may have lost
-- track of.
pub record Sys (Sector : Type 0) : Type 0 where
  pub bio : Bio Sector
  pub disk : ℕ → ℕ → Sector
  pub writes : ℕ → Option (Write Sector)
  pub stored : ℕ → ℕ → Bool
  pub loaded : ℕ → ℕ → Bool
  pub marked : ℕ → ℕ → Bool

abbrev pub set_sector {ℓ} : {A : Type ℓ} → (ℕ → ℕ → A) → ℕ → ℕ → A → ℕ → ℕ → A
set_sector disk d s x d' s' = if d' == d && s' == s then x else disk d' s'

module _ {Sector : Type 0} where
  unfoldable pub look : Sys Sector → ℕ → ℕ → Sys Sector
  look s drive page =
      let found = lookup s.bio drive page in
      record s { bio = found.1; loaded = loaded_after found.0 s.loaded }

  -- the driver moves sector `w` of the page into the buffer
  unfoldable pub load : Sys Sector → ℕ → ℕ → Sys Sector
  load s k w =
      let b = s.bio.bufs k in
      record s {
        bio = with_buf s.bio k (record b { body = put b.body w (s.disk b.drive (b.page * 8 + w)) });
        loaded = put s.loaded k (put (s.loaded k) w true);
      }

  unfoldable pub start : Sys Sector → ℕ → Write Sector → Sys Sector
  start s t p = record s { writes = put s.writes t (some p); stored = put s.stored t (λ x. false) }

  -- the driver moves a sector of the write onto the disk
  unfoldable pub store : Sys Sector → ℕ → Write Sector → ℕ → Sys Sector
  store s t p x = record s {
    disk = set_sector s.disk p.drive x (p.bytes (x - p.lba));
    stored = put s.stored t (put (s.stored t) x true);
  }

  -- the sectors of a write of which `among` says so
  abbrev pub mark : (ℕ → ℕ → Bool) → Write Sector → (ℕ → Bool) → ℕ → ℕ → Bool
  mark marked p among d x =
      marked d x || (d == p.drive && (leb p.lba x && (ltb x (p.lba + p.nsec) && among x)))

  -- a write starts that others in flight may overlap
  unfoldable pub cross : Sys Sector → ℕ → Write Sector → Sys Sector
  cross s t p = record (start s t p) { marked = mark s.marked p (λ x. true) }

  -- a sector that ata_write puts on the disk, not asked by bio_write
  unfoldable pub bypass : Sys Sector → ℕ → ℕ → Sector → Sys Sector
  bypass s d x a = record s {
    disk = set_sector s.disk d x a;
    marked = set_sector s.marked d x true;
  }

  abbrev pub over : Sys Sector → ℕ → Sys Sector
  over s t = record s { writes = put s.writes t none }

  -- the driver answers a write with an error, whatever it has put on the disk
  unfoldable pub give_up : Sys Sector → ℕ → Write Sector → Sys Sector
  give_up s t p = record (over s t) { marked = mark s.marked p (s.stored t) }

  pub data Step (s : Sys Sector) : Sys Sector → Type 0 where
    looks : (drive page : ℕ) → Step s (look s drive page)
    loads : (k w : ℕ) → k < 64 → w < 8 → (s.bio.bufs k).busy ≡ true → Step s (load s k w)
    fetches :
        (k : ℕ)
        → k < 64
        → (s.bio.bufs k).busy ≡ true
        → ((w : ℕ) → w < 8 → s.loaded k w ≡ true)
        → Step s (record s { bio = (finish s.bio k true).1 })
    fails :
        (k : ℕ)
        → k < 64
        → (s.bio.bufs k).busy ≡ true
        → Step s (record s { bio = (finish s.bio k false).1 })
    starts :
        (t : ℕ) (p : Write Sector)
        → s.writes t ≡ none
        → p.lba + p.nsec < 2 ^ 64
        → ((t' : ℕ) (q : Write Sector) → s.writes t' ≡ some q → Apart p q)
        → Step s (start s t p)
    stores :
        (t : ℕ) (p : Write Sector) (x : ℕ)
        → s.writes t ≡ some p
        → p.lba ≤ x
        → x < p.lba + p.nsec
        → Step s (store s t p x)
    patches :
        (t : ℕ) (p : Write Sector)
        → s.writes t ≡ some p
        → p.lba + p.nsec < 2 ^ 64
        → ((x : ℕ) → p.lba ≤ x → x < p.lba + p.nsec → s.stored t x ≡ true)
        → Step s (over (record s { bio = patch s.bio p.drive p.lba p.nsec p.bytes }) t)
    crosses :
        (t : ℕ) (p : Write Sector)
        → s.writes t ≡ none
        → p.lba + p.nsec < 2 ^ 64
        → Step s (cross s t p)
    gives_up : (t : ℕ) (p : Write Sector) → s.writes t ≡ some p → Step s (give_up s t p)
    bypasses : (d x : ℕ) (a : Sector) → Step s (bypass s d x a)
    forgets : (drive : ℕ) → Step s (record s { bio = invalidate_drive s.bio drive })

  pub data Reach (s : Sys Sector) : Sys Sector → Type 0 where
    here : Reach s s
    next : {t u : Sys Sector} → Reach s t → Step t u → Reach s u
