-- ===== src/Bio/Coherence.antt =====
-- The invariant of the shared cache, for every interleaving of its threads.
pub mod Fetch
pub mod Starts
pub mod Writes
pub mod Flush
pub mod Reachable
use style9_os.Base.{
  ℕ, put, put_self, put-other, ◌+◌, ◌-◌, ◌*◌, ◌≤◌, ◌<◌, ◌≡◌, sym, subst, subst₂, ◌≢◌, ◌⊎◌, Bool,
  true, false, Option, some, ℕ_discrete,
}
use style9_os.Bio.{Buf, Bio, put_buf, patch}
use style9_os.Bio.Patch.{IsUnique, IsAlone, put-IsUnique, put_buf_self, put_buf-other}
use style9_os.Bio.Concurrent.{Write, Holds, Apart, Sys}

module _ {Sector : Type 0} where
  -- A write has put the sector on the disk, and its patch of the cache is still to come; or the sector
  -- is marked.
  abbrev pub IsAhead :
      (ℕ → Option (Write Sector)) → (ℕ → ℕ → Bool) → (ℕ → ℕ → Bool) → ℕ → ℕ → Type 0
  IsAhead writes stored marked d x =
      ((t : ℕ) × (p : Write Sector) × (writes t ≡ some p) × Holds p d x × (stored t x ≡ true))
      ⊎ (marked d x ≡ true)

  module _ (disk : ℕ → ℕ → Sector) (writes : ℕ → Option (Write Sector))
      (stored marked : ℕ → ℕ → Bool) where
    -- Sector `w` of the buffer's page is the disk's, or a write is ahead of it, or it is marked.
    abbrev pub Agrees : Buf Sector → ℕ → Type 0
    Agrees b w =
        (b.body w ≡ disk b.drive (b.page * 8 + w))
        ⊎ IsAhead writes stored marked b.drive (b.page * 8 + w)

    pub record BufOk (b : Buf Sector) (loaded : ℕ → Bool) : Type 0 where
      pub quiet : b.busy ≡ true → b.valid ≡ false
      pub agrees : b.valid ≡ true → (w : ℕ) → w < 8 → Agrees b w
      pub flight : b.busy ≡ true → b.stale ≡ false → (w : ℕ) → w < 8 → loaded w ≡ true → Agrees b w

  pub record IsSound (s : Sys Sector) : Type 0 where
    pub unique : IsUnique s.bio.bufs
    pub bufs_ok :
        (k : ℕ) → k < 64 → BufOk s.disk s.writes s.stored s.marked (s.bio.bufs k) (s.loaded k)
    pub apart :
        (t t' : ℕ) (p q : Write Sector)
        → s.writes t ≡ some p
        → s.writes t' ≡ some q
        → t ≢ t'
        → (d x : ℕ) → s.marked d x ≡ false
        → Holds p d x
        → ¬ Holds q d x
    pub held :
        (t : ℕ) (p : Write Sector) (x : ℕ)
        → s.writes t ≡ some p
        → p.lba ≤ x
        → x < p.lba + p.nsec
        → s.marked p.drive x ≡ false
        → s.stored t x ≡ true
        → s.disk p.drive x ≡ p.bytes (x - p.lba)

  -- One buffer is replaced; the disk and the writes stay.
  put-IsSound :
      (s : Sys Sector) (bio' : Bio Sector) (i : ℕ) (b : Buf Sector) (l : ℕ → Bool)
      (loaded' : ℕ → ℕ → Bool)
      → IsSound s
      → bio'.bufs ≡ put_buf s.bio.bufs i b
      → loaded' ≡ put s.loaded i l
      → BufOk s.disk s.writes s.stored s.marked b l
      → IsAlone s.bio.bufs i b
      → IsSound (record s { bio = bio'; loaded = loaded' })
  put-IsSound s bio' i b l loaded' v eb el ok alone = record {
    unique = subst IsUnique (sym eb) (put-IsUnique s.bio.bufs i b v.unique alone);
    bufs_ok = λ k h.
        subst₂ (λ f g. BufOk s.disk s.writes s.stored s.marked (f k) (g k)) (sym eb) (sym el)
          (elim (ℕ_discrete k i) [
            | yes e ↦
                subst₂ (BufOk s.disk s.writes s.stored s.marked)
                  (sym (put_buf_self s.bio.bufs i b k e)) (sym (put_self s.loaded i l k e)) ok
            | no ne ↦
                subst₂ (BufOk s.disk s.writes s.stored s.marked)
                  (sym (put_buf-other s.bio.bufs i b k ne)) (sym (put-other s.loaded i l k ne))
                  (v.bufs_ok k h)
          ]);
    apart = v.apart;
    held = v.held;
  }
