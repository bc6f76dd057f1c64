-- ===== src/VmObject/Pager.antt =====
-- vm/vm_object.c: vm_object_file and vm_object_page, over the files of fs/fs.c, which are the parameter
-- `files`. A page is a function from its 4096 bytes; what vm_object_page leaves in it, in the object and
-- in the answer is one value. fs_pread brings the handle's length up to date before it reads, also
-- where the read then fails, and the object keeps the handle that it leaves. The path, kept for people to
-- read, is left out, and so are vm_object_page's own NULL tests of the object and the page.
use style9_os.Base.{
  ℕ, ◌+◌, ◌-◌, ◌≤◌, ◌<◌, ◌≡◌, refl, ◌≢◌, ◌⊎◌, inl, inr, Bool, true, false, not, ◌||◌, Option, none,
  some, ltb, leb, ◌==◌, if◌then◌else◌, Bool-cases, arith, add64,
}

-- fh_kind == FS_HANDLE_NONE and fh_size of a handle. fs_hold: the error, 0 for none. fs_pread: the
-- error, the number of bytes read, the buffer, and the handle.
pub record Files (Fs Handle : Type 0) : Type 0 where
  pub is_none : Handle → Bool
  pub size_of : Handle → ℕ
  pub hold : Fs → Handle → ℕ × Fs
  pub pread : Fs → Handle → ℕ → ℕ → (ℕ → ℕ) → ℕ × ℕ × (ℕ → ℕ) × Handle

-- struct vm_object of a file
pub record FileObject (Handle : Type 0) : Type 0 where
  pub handle : Handle
  pub size : ℕ
  pub n_page : ℕ
  pub refs : ℕ

-- VM_OBJ_PAGE_BYTES
abbrev pub page_bytes : ℕ
page_bytes = 4096

-- the bytes that the page at `off` takes from a file of `size` bytes
abbrev pub want_at : ℕ → ℕ → ℕ
want_at size off = if ltb (size - off) page_bytes then size - off else page_bytes

module _ {Fs Handle : Type 0} (files : Files Fs Handle) where
  -- vm_object_file, a NULL handle being `none`, and whether kmalloc had the memory
  unfoldable pub file : Bool → Fs → Option Handle → Option (FileObject Handle) × Fs
  file mem fs none = (none, fs)
  file mem fs (some h) =
      let (rv, fs') = files.hold fs h in
      if files.is_none h
      then (none, fs)
      else if not mem
      then (none, fs)
      else if not (rv == 0)
      then (none, fs')
      else (some (record { handle = h; size = files.size_of h; n_page = 0; refs = 1 }), fs')

  -- vm_object_page: whether it succeeded, the object and the page
  unfoldable pub page : Fs → FileObject Handle → ℕ → (ℕ → ℕ) → Bool × FileObject Handle × (ℕ → ℕ)
  page fs obj off out =
      let want = want_at obj.size off in
      let (rv, n, out', h) = files.pread fs obj.handle off want out in
      if leb obj.size off
      then (true, obj, out)
      else if not (rv == 0) || not (n == want)
      then (false, record obj { handle = h }, out')
      else (true, record obj { handle = h; n_page = add64 obj.n_page 1 }, out')

  -- A read that succeeds has put what it read of the file's content into the front of the buffer.
  pub record IsFiles (content : Fs → Handle → ℕ → ℕ) : Type 0 where
    pub read_ok :
        (fs : Fs) (h : Handle) (off len : ℕ) (out : ℕ → ℕ)
        → (files.pread fs h off len out).0 ≡ 0
        → (j : ℕ) → j < (files.pread fs h off len out).1
        → (files.pread fs h off len out).2 j ≡ content fs h (off + j)
    pub read_rest :
        (fs : Fs) (h : Handle) (off len : ℕ) (out : ℕ → ℕ)
        → (files.pread fs h off len out).0 ≡ 0
        → (j : ℕ) → (files.pread fs h off len out).1 ≤ j
        → (files.pread fs h off len out).2 j ≡ out j

  -- the handle as the read of the page at `off` leaves it
  abbrev pub left_handle : Fs → FileObject Handle → ℕ → Handle
  left_handle fs obj off = (files.pread fs obj.handle off (want_at obj.size off) (λ j. 0)).3

  module _ (content : Fs → Handle → ℕ → ℕ) (law : IsFiles content) where
    -- What vm_object_page answers for a zeroed page.
    pub data Filled (fs : Fs) (obj : FileObject Handle) (off : ℕ)
        : Bool × FileObject Handle × (ℕ → ℕ) → Type 0 where
      filled :
          (obj' : FileObject Handle) (out : ℕ → ℕ)
          → ((j : ℕ)
              → j < page_bytes
              → out j ≡ (if ltb (off + j) obj.size then content fs obj.handle (off + j) else 0))
          → (obj'.size ≡ obj.size) × (obj'.refs ≡ obj.refs)
          → ((obj.size ≤ off) × (obj' ≡ obj))
            ⊎ ((off < obj.size)
                × (obj'.handle ≡ left_handle fs obj off)
                × (obj'.n_page ≡ add64 obj.n_page 1))
          → Filled fs obj off (true, obj', out)
      unread :
          (out : ℕ → ℕ)
          → off < obj.size
          → ((files.pread fs obj.handle off (want_at obj.size off) (λ j. 0)).0 ≢ 0)
            ⊎ ((files.pread fs obj.handle off (want_at obj.size off) (λ j. 0)).1
                ≢ want_at obj.size off)
          → Filled fs obj off (false, record obj { handle = left_handle fs obj off }, out)

    -- A page that the pager fills from a zeroed frame holds the file's bytes up to the size that the
    -- object has, and zeroes from there on, provided that a read that succeeds has read the file's
    -- bytes and touched no others. It fails only where the read failed or was short. Either way the
    -- object keeps its size and its references, and takes over the handle that the read has left, if
    -- there was one; the count of pages read goes up by one after a read that succeeded.
    pub page-Filled :
        (fs : Fs) (obj : FileObject Handle) (off : ℕ) → Filled fs obj off (page fs obj off (λ j. 0))
    unfolding page
    page-Filled fs obj off =
        let want : ℕ = want_at obj.size off in
        let r : ℕ × ℕ × (ℕ → ℕ) × Handle = files.pread fs obj.handle off want (λ j. 0) in
        elim (Bool-cases (leb obj.size off)) [
          | inl past ↦ simp past (
              filled obj (λ j. 0)
                (λ j u.
                  let beyond : ltb (off + j) obj.size ≡ false = ground (arith, past) in
                  rw beyond refl)
                (refl, refl) (inl (ground (arith, past), refl)))
          | inr inside ↦ elim (Bool-cases (r.0 == 0)) [
            | inr bad ↦
                simp (inside, bad) (unread r.2 (ground (arith, inside)) (inl (ground (arith, bad))))
            | inl good ↦ elim (Bool-cases (r.1 == want)) [
              | inr short ↦
                  simp (inside, good, short)
                    (unread r.2 (ground (arith, inside)) (inr (ground (arith, short))))
              | inl whole ↦
                  simp (inside, good, whole)
                    (filled _ r.2
                      (λ j u. elim (Bool-cases (ltb (off + j) obj.size)) [
                        | inl within ↦ rw within (
                            law.read_ok fs obj.handle off want (λ j. 0) (ground (arith, good)) j
                              (ground (arith, whole, inside, within, u)))
                        | inr beyond ↦ rw beyond (
                            law.read_rest fs obj.handle off want (λ j. 0) (ground (arith, good)) j
                              (ground (arith, whole, inside, beyond)))
                      ])
                      (refl, refl) (inr (ground (arith, inside), refl, refl)))
            ]
          ]
        ]
