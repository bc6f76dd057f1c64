-- ===== src/FsTxn/Poison.antt =====
-- A transaction being built, operation by operation: what it keeps, and what a refused fetch
-- means for its commit.
use style9_os.Base.{
  ℕ, zero, suc, ◌≤◌, ◌≡◌, refl, sym, subst, ap, ◌≢◌, inl, inr, Bool, true, false, Option, none,
  List, [], ◌∷◌, ◌==◌, Bool-cases, arith, length, add64,
}
use style9_os.FsTxn.{
  Slot, Txn, Code, Device, Stats, e_ok, e_io, find, begin, get, get_into, abort, edit, mark, dirty,
  commit, release,
}
use style9_os.FsTxn.Fetch.{
  IsTxn, IsDistinct, Got, handed, refused, get-Got, find-cons, find-cons_none,
}

-- What a caller does with a transaction: fetch a block, with or without a place for its buffer, change a
-- buffer, mark a block, give up, start over.
pub data Op (Block : Type 0) : Type 0 where
  op_get : Bool → Bool → ℕ → Bool → Op Block
  op_edit : ℕ → (Block → Block) → Op Block
  op_dirty : ℕ → Op Block
  op_abort : Op Block
  op_begin : Op Block

-- fs_txn_abort's counters, which no other operation here reads
abbrev unread_stats : Stats
unread_stats = record { commits = 0; blocks = 0; aborts = 0 }

unfoldable pub apply :
    {Disk Block : Type 0} → Device Disk Block → Disk → Txn Block → Op Block → Txn Block
apply dev disk t (op_get given mem bno raw) = (get_into given mem dev disk t bno raw).2
apply dev disk t (op_edit i f) = record t { slots = edit t.slots i f }
apply dev disk t (op_dirty bno) = dirty t bno
apply dev disk t op_abort = (abort unread_stats t).1
apply dev disk t op_begin = begin

unfoldable pub run :
    {Disk Block : Type 0} → Device Disk Block → Disk → Txn Block → List (Op Block) → Txn Block
run dev disk t [] = t
run dev disk t (o ∷ os) = run dev disk (apply dev disk t o) os

-- The caller neither gives up nor starts over.
abbrev pub GoesOn : {Block : Type 0} → List (Op Block) → Type 0
GoesOn [] = Unit
GoesOn (op_get given mem bno raw ∷ os) = GoesOn os
GoesOn (op_edit i f ∷ os) = GoesOn os
GoesOn (op_dirty bno ∷ os) = GoesOn os
GoesOn (op_abort ∷ os) = ⊥
GoesOn (op_begin ∷ os) = ⊥

-- Edits and marks keep every slot's block and place.
module _ {Block : Type 0} where
  find-none-edit :
      (ss : List (Slot Block)) (i b : ℕ) (f : Block → Block)
      → find ss b ≡ none
      → find (edit ss i f) b ≡ none
  unfolding edit
  find-none-edit [] i b f e = e
  find-none-edit (s ∷ ss) zero b f e =
      let (h, k) = find-cons_none s ss b e in find-cons (record s { buf = f s.buf }) ss b h k
  find-none-edit (s ∷ ss) (suc i) b f e =
      let (h, k) = find-cons_none s ss b e in
      find-cons s (edit ss i f) b h (find-none-edit ss i b f k)

  edit-IsDistinct :
      (ss : List (Slot Block)) (i : ℕ) (f : Block → Block)
      → IsDistinct ss
      → IsDistinct (edit ss i f)
  unfolding edit IsDistinct
  edit-IsDistinct [] i f d = d
  edit-IsDistinct (s ∷ ss) zero f d = d
  edit-IsDistinct (s ∷ ss) (suc i) f d =
      (find-none-edit ss i s.bno f d.0, edit-IsDistinct ss i f d.1)

  length-edit :
      (ss : List (Slot Block)) (i : ℕ) (f : Block → Block) → length (edit ss i f) ≡ length ss
  unfolding edit
  length-edit [] i f = refl
  length-edit (s ∷ ss) zero f = refl
  length-edit (s ∷ ss) (suc i) f = ap suc (length-edit ss i f)

  find-none-mark :
      (ss : List (Slot Block)) (c b : ℕ) → find ss b ≡ none → find (mark ss c).1 b ≡ none
  unfolding mark
  find-none-mark [] c b e = e
  find-none-mark (s ∷ ss) c b e =
      let (h, k) = find-cons_none s ss b e in
      elim (Bool-cases (s.bno == c)) [
        | inl hit ↦ rw hit (find-cons (record s { dirty = true }) ss b h k)
        | inr miss ↦ rw miss (find-cons s (mark ss c).1 b h (find-none-mark ss c b k))
      ]

  mark-IsDistinct : (ss : List (Slot Block)) (c : ℕ) → IsDistinct ss → IsDistinct (mark ss c).1
  unfolding mark IsDistinct
  mark-IsDistinct [] c d = d
  mark-IsDistinct (s ∷ ss) c d = elim (Bool-cases (s.bno == c)) [
    | inl hit ↦ rw hit d
    | inr miss ↦ rw miss (find-none-mark ss c s.bno d.0, mark-IsDistinct ss c d.1)
  ]

  length-mark : (ss : List (Slot Block)) (c : ℕ) → length (mark ss c).1 ≡ length ss
  unfolding mark
  length-mark [] c = refl
  length-mark (s ∷ ss) c = elim (Bool-cases (s.bno == c)) [
    | inl hit ↦ rw hit refl
    | inr miss ↦ rw miss (ap suc (length-mark ss c))
  ]

  dirty-IsTxn : (t : Txn Block) (bno : ℕ) → IsTxn t → IsTxn (dirty t bno)
  unfolding dirty
  dirty-IsTxn t bno v = elim (Bool-cases (mark t.slots bno).0) [
    | inl hit ↦ simp hit (record {
      distinct = mark-IsDistinct t.slots bno v.distinct;
      few = omega (arith, length-mark t.slots bno, v.few);
    })
    | inr miss ↦ simp miss (record { distinct = v.distinct; few = v.few })
  ]

  dirty_failed : (t : Txn Block) (bno : ℕ) → t.failed ≡ true → (dirty t bno).failed ≡ true
  unfolding dirty
  dirty_failed t bno e = elim (Bool-cases (mark t.slots bno).0) [
    | inl hit ↦ simp hit e
    | inr miss ↦ simp miss refl
  ]

Got-IsTxn :
    {Block : Type 0} (t : Txn Block) (bno : ℕ) (raw : Bool) (read : Option Block)
    (r : Code × Option ℕ × Txn Block)
    → IsTxn t
    → Got t bno raw read r
    → IsTxn r.2
Got-IsTxn t bno raw read _ v (handed i s q at agree f w how rest) = w
Got-IsTxn t bno raw read _ v (refused c q bad f e) = record {
  distinct = subst IsDistinct (sym e) v.distinct;
  few = subst (λ l. length l ≤ 12) (sym e) v.few;
}

Got_failed :
    {Block : Type 0} (t : Txn Block) (bno : ℕ) (raw : Bool) (read : Option Block)
    (r : Code × Option ℕ × Txn Block)
    → r.0 ≢ e_ok
    → Got t bno raw read r
    → r.2.failed ≡ true
Got_failed t bno raw read _ ne (handed i s q at agree f w how rest) = absurd (ne refl)
Got_failed t bno raw read _ ne (refused c q bad f e) = f

module _ {Disk Block : Type 0} (dev : Device Disk Block) (disk : Disk) where
  get_into-IsTxn :
      (given mem : Bool) (bno : ℕ) (raw : Bool) (t : Txn Block)
      → IsTxn t
      → IsTxn (get_into given mem dev disk t bno raw).2
  unfolding get_into
  get_into-IsTxn true mem bno raw t v = Got-IsTxn t bno raw _ _ v (get-Got mem dev disk t bno raw v)
  get_into-IsTxn false mem bno raw t v = v

  abbrev empty_txn : Bool → Txn Block
  empty_txn b = record { slots = []; failed = b }

  empty-IsTxn : (b : Bool) → IsTxn (empty_txn b)
  unfolding IsDistinct
  empty-IsTxn b = record { distinct = tt; few = omega arith }

  -- A transaction that holds each block once, in 12 slots at most, goes on to do so whatever the
  -- caller does: fetches, edits, marks, aborts and fresh starts.
  pub run-IsTxn : (t : Txn Block) (os : List (Op Block)) → IsTxn t → IsTxn (run dev disk t os)
  unfolding run apply abort begin release
  run-IsTxn t [] v = v
  run-IsTxn t (op_get given mem bno raw ∷ os) v =
      run-IsTxn (get_into given mem dev disk t bno raw).2 os (get_into-IsTxn given mem bno raw t v)
  run-IsTxn t (op_abort ∷ os) v = run-IsTxn _ os (empty-IsTxn false)
  run-IsTxn t (op_begin ∷ os) v = run-IsTxn _ os (empty-IsTxn false)
  run-IsTxn t (op_edit i f ∷ os) v =
      run-IsTxn (record t { slots = edit t.slots i f }) os
        (record {
          distinct = edit-IsDistinct t.slots i f v.distinct;
          few = omega (arith, length-edit t.slots i f, v.few);
        })
  run-IsTxn t (op_dirty bno ∷ os) v = run-IsTxn (dirty t bno) os (dirty-IsTxn t bno v)

  get_into_failed :
      (given mem : Bool) (bno : ℕ) (raw : Bool) (t : Txn Block)
      → t.failed ≡ true
      → (get_into given mem dev disk t bno raw).2.failed ≡ true
  unfolding get_into get
  get_into_failed true mem bno raw t e = simp e
  get_into_failed false mem bno raw t e = e

  commit_failed :
      (st : Stats) (t : Txn Block)
      → t.failed ≡ true
      → commit dev disk st t ≡ (
        e_io,
        disk,
        record st { aborts = add64 st.aborts 1 },
        record { slots = []; failed = true },
      )
  unfolding commit release
  commit_failed st t e = simp e

  run_failed :
      (t : Txn Block) (os : List (Op Block))
      → GoesOn os
      → t.failed ≡ true
      → (run dev disk t os).failed ≡ true
  unfolding run apply
  run_failed t [] on e = e
  run_failed t (op_get given mem bno raw ∷ os) on e =
      run_failed (get_into given mem dev disk t bno raw).2 os on
        (get_into_failed given mem bno raw t e)
  run_failed t (op_edit i f ∷ os) on e = run_failed (record t { slots = edit t.slots i f }) os on e
  run_failed t (op_dirty bno ∷ os) on e = run_failed (dirty t bno) os on (dirty_failed t bno e)
  run_failed t (op_abort ∷ os) on e = absurd on
  run_failed t (op_begin ∷ os) on e = absurd on

  -- If a fetch with a place for its buffer (buf_out is not NULL) is refused by a transaction that holds
  -- each block once, then as long as the caller neither aborts the transaction nor begins it anew,
  -- whatever else it fetches, edits and marks, the commit answers e_io, leaves the disk as it is,
  -- counts one abort and lets go of every slot.
  pub commit_poisoned :
      (st : Stats) (t : Txn Block) (mem : Bool) (bno : ℕ) (raw : Bool) (os : List (Op Block))
      → IsTxn t
      → GoesOn os
      → (get_into true mem dev disk t bno raw).0 ≢ e_ok
      → commit dev disk st (run dev disk (get_into true mem dev disk t bno raw).2 os) ≡ (
        e_io,
        disk,
        record st { aborts = add64 st.aborts 1 },
        record { slots = []; failed = true },
      )
  unfolding get_into
  commit_poisoned st t mem bno raw os v on ne =
      commit_failed st _
        (run_failed _ os on (Got_failed t bno raw _ _ ne (get-Got mem dev disk t bno raw v)))
