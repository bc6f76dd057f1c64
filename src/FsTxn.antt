-- ===== src/FsTxn.antt =====
-- fs/fs_txn.c: a set of metadata blocks that are changed together. The transaction's array of slots,
-- of which the first tx_n are in use, is the list of those; a buffer is known by its slot's place in
-- it. fs_apfs_read_block and its three companions (fs/apfs/apfs.c) are the parameter `dev`. Whether
-- kmalloc had memory is an argument, `mem`.
pub mod Fetch
pub mod Poison
pub mod Commit
mod Tests
use style9_os.Base.{
  ℕ, zero, suc, ◌+◌, ◌≡◌, Bool, true, false, not, ◌&&◌, Option, none, some, List, [], ◌∷◌, ◌++◌,
  ltb, leb, ◌==◌, if◌then◌else◌, length, add64,
}

-- The block primitives. A write answers whether it succeeded.
pub record Device (Disk Block : Type 0) : Type 0 where
  pub read_checked : Disk → ℕ → Option Block
  pub read_raw : Disk → ℕ → Option Block
  pub write_checked : Disk → ℕ → Block → Bool × Disk
  pub write_raw : Disk → ℕ → Block → Bool × Disk

pub record Slot (Block : Type 0) : Type 0 where
  pub bno : ℕ
  pub buf : Block
  pub dirty : Bool
  pub raw : Bool

pub record Txn (Block : Type 0) : Type 0 where
  pub slots : List (Slot Block)
  pub failed : Bool

-- FS_TXN_E_OK, _IO, _NOMEM and _FULL
pub data Code : Type 0 where
  e_ok : Code
  e_io : Code
  e_nomem : Code
  e_full : Code

-- txn_n_commit, txn_n_blocks and txn_n_abort
pub record Stats : Type 0 where
  pub commits : ℕ
  pub blocks : ℕ
  pub aborts : ℕ

unfoldable pub begin : {Block : Type 0} → Txn Block
begin = record { slots = []; failed = false }

unfoldable pub release : {Block : Type 0} → Txn Block → Txn Block
release t = record t { slots = [] }

abbrev pub poison : {Block : Type 0} → Txn Block → Txn Block
poison t = record t { failed = true }

-- the first slot of a block, and its place
unfoldable pub find : {Block : Type 0} → List (Slot Block) → ℕ → Option (ℕ × Slot Block)
find [] bno = none
find (s ∷ ss) bno =
    if s.bno == bno
    then some (0, s)
    else elim (find ss bno) [ none ↦ none | some (i, r) ↦ some (suc i, r) ]

-- the one read that a first touch makes
unfoldable pub fetch : {Disk Block : Type 0} → Device Disk Block → Disk → ℕ → Bool → Option Block
fetch dev disk bno raw = if raw then dev.read_raw disk bno else dev.read_checked disk bno

abbrev pub fresh_slot : {Block : Type 0} → ℕ → Block → Bool → Slot Block
fresh_slot bno b raw = record { bno = bno; buf = b; dirty = false; raw = raw }

abbrev pub same : Bool → Bool → Bool
same a b = if a then b else not b

-- a block that the transaction has already: the same buffer, unless the two disagree on `raw`
unfoldable pub reuse :
    {Block : Type 0} → Txn Block → ℕ → Slot Block → Bool → Code × Option ℕ × Txn Block
reuse t i s raw = if same s.raw raw then (e_ok, some i, t) else (e_io, none, poison t)

-- a block that it has not: read on this first touch
unfoldable pub touch :
    {Disk Block : Type 0}
    → Bool
    → Device Disk Block
    → Disk
    → Txn Block
    → ℕ
    → Bool
    → Code × Option ℕ × Txn Block
touch mem dev disk t bno raw =
    if leb 12 (length t.slots)
    then (e_full, none, poison t)
    else if not mem
    then (e_nomem, none, poison t)
    else elim (fetch dev disk bno raw) [
      | none ↦ (e_io, none, poison t)
      | some b ↦
          (e_ok, some (length t.slots), record t { slots = t.slots ++ (fresh_slot bno b raw ∷ []) })
    ]

-- txn_get from its test of tx_failed on: the code, *buf_out, and the transaction after it
unfoldable pub get :
    {Disk Block : Type 0}
    → Bool
    → Device Disk Block
    → Disk
    → Txn Block
    → ℕ
    → Bool
    → Code × Option ℕ × Txn Block
get mem dev disk t bno raw = if t.failed then (e_io, none, t) else elim (find t.slots bno) [
  | some (i, s) ↦ reuse t i s raw
  | none ↦ touch mem dev disk t bno raw
]

-- txn_get as a whole, and whether the caller gave a buf_out: a NULL one is refused before anything else
unfoldable pub get_into :
    {Disk Block : Type 0}
    → Bool
    → Bool
    → Device Disk Block
    → Disk
    → Txn Block
    → ℕ
    → Bool
    → Code × Option ℕ × Txn Block
get_into given mem dev disk t bno raw =
    if not given then (e_io, none, t) else get mem dev disk t bno raw

-- the caller's writes into a buffer it was handed
unfoldable pub edit : {Block : Type 0} → List (Slot Block) → ℕ → (Block → Block) → List (Slot Block)
edit [] i f = []
edit (s ∷ ss) zero f = record s { buf = f s.buf } ∷ ss
edit (s ∷ ss) (suc i) f = s ∷ edit ss i f

-- the loop of fs_txn_dirty: the slots, and whether the block was there
unfoldable pub mark : {Block : Type 0} → List (Slot Block) → ℕ → Bool × List (Slot Block)
mark [] bno = (false, [])
mark (s ∷ ss) bno =
    let (hit, rest) = mark ss bno in
    if s.bno == bno then (true, record s { dirty = true } ∷ ss) else (hit, s ∷ rest)

unfoldable pub dirty : {Block : Type 0} → Txn Block → ℕ → Txn Block
dirty t bno =
    let (hit, slots) = mark t.slots bno in if hit then record t { slots = slots } else poison t

unfoldable pub write_slot :
    {Disk Block : Type 0} → Device Disk Block → Disk → Slot Block → Bool × Disk
write_slot dev disk s =
    if s.raw then dev.write_raw disk s.bno s.buf else dev.write_checked disk s.bno s.buf

-- The flush: whether every write succeeded, how many did, and the disk. It keeps going after a failure.
unfoldable pub flush :
    {Disk Block : Type 0} → Device Disk Block → Disk → List (Slot Block) → Bool × ℕ × Disk
flush dev disk [] = (true, 0, disk)
flush dev disk (s ∷ ss) =
    let w = write_slot dev disk s in
    let skipped = flush dev disk ss in
    let rest = flush dev w.1 ss in
    if not s.dirty then skipped else (w.0 && rest.0, (if w.0 then suc rest.1 else rest.1), rest.2)

unfoldable pub commit :
    {Disk Block : Type 0}
    → Device Disk Block
    → Disk
    → Stats
    → Txn Block
    → Code × Disk × Stats × Txn Block
commit dev disk st t =
    let (all_ok, n, after) = flush dev disk t.slots in
    let written = add64 st.blocks n in
    if t.failed
    then (e_io, disk, record st { aborts = add64 st.aborts 1 }, release t)
    else if all_ok
    then (e_ok, after, record st { blocks = written; commits = add64 st.commits 1 }, release t)
    else (e_io, after, record st { blocks = written }, release t)

unfoldable pub abort : {Block : Type 0} → Stats → Txn Block → Stats × Txn Block
abort st t = (
  (if length t.slots == 0 then st else record st { aborts = add64 st.aborts 1 }),
  record t { slots = []; failed = false },
)
