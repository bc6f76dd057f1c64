-- ===== src/FsTxn/Commit.antt =====
-- fs_txn_commit: what the disk holds after a flush in which no write failed.
use style9_os.Base.{
  ℕ, suc, ◌≡◌, refl, sym, subst, ap, ◌∙◌, inl, inr, Bool, true, false, ◌&&◌, Option, none, some,
  List, [], ◌∷◌, ◌==◌, if◌then◌else◌, Bool-cases, arith,
}
use style9_os.FsTxn.{
  Slot, Txn, Device, Stats, e_ok, e_io, find, fetch, commit, flush, write_slot, release,
}
use style9_os.FsTxn.Fetch.{IsTxn, IsDistinct, io-ne-ok}

-- What the flush relies on in the block primitives: a write that succeeds is read back, sealed where
-- it is a checked block, and a write of one block is not seen in another.
pub record IsDevice {Disk Block : Type 0} (dev : Device Disk Block) (seal : Block → Block)
    : Type 0 where
  pub checked_back :
      (d : Disk) (b : ℕ) (x : Block)
      → (dev.write_checked d b x).0 ≡ true
      → dev.read_checked (dev.write_checked d b x).1 b ≡ some (seal x)
  pub raw_back :
      (d : Disk) (b : ℕ) (x : Block)
      → (dev.write_raw d b x).0 ≡ true
      → dev.read_raw (dev.write_raw d b x).1 b ≡ some x
  pub checked_apart :
      (d : Disk) (b c : ℕ) (x : Block)
      → (b == c) ≡ false
      → (dev.read_checked (dev.write_checked d b x).1 c ≡ dev.read_checked d c)
        × (dev.read_raw (dev.write_checked d b x).1 c ≡ dev.read_raw d c)
  pub raw_apart :
      (d : Disk) (b c : ℕ) (x : Block)
      → (b == c) ≡ false
      → (dev.read_checked (dev.write_raw d b x).1 c ≡ dev.read_checked d c)
        × (dev.read_raw (dev.write_raw d b x).1 c ≡ dev.read_raw d c)

module _ {Disk Block : Type 0} (dev : Device Disk Block) (seal : Block → Block) where
  -- two disks that read alike at a block
  abbrev pub Alike : Disk → Disk → ℕ → Type 0
  Alike d d' b = (raw : Bool) → fetch dev d b raw ≡ fetch dev d' b raw

  -- a slot's buffer is what its block holds, sealed if it is a checked block
  abbrev pub Written : Disk → Slot Block → Type 0
  Written d s = fetch dev d s.bno s.raw ≡ some (if s.raw then s.buf else seal s.buf)

  -- What a flush from `d` to `d'` does to a block, by the slot found for it.
  pub Flushed : Disk → Disk → ℕ → Option (ℕ × Slot Block) → Type 0
  Flushed d d' b none = Alike d' d b
  Flushed d d' b (some (i, s)) = if s.dirty then Written d' s else Alike d' d b

  module _ (law : IsDevice dev seal) where
    write_slot-Alike :
        (d : Disk) (s : Slot Block) (b : ℕ)
        → (s.bno == b) ≡ false
        → Alike (write_slot dev d s).1 d b
    unfolding write_slot fetch
    write_slot-Alike d s b h true = elim (Bool-cases s.raw) [
      | inl r ↦ simp r (law.raw_apart d s.bno b s.buf h).1
      | inr r ↦ simp r (law.checked_apart d s.bno b s.buf h).1
    ]
    write_slot-Alike d s b h false = elim (Bool-cases s.raw) [
      | inl r ↦ simp r (law.raw_apart d s.bno b s.buf h).0
      | inr r ↦ simp r (law.checked_apart d s.bno b s.buf h).0
    ]

    write_slot-Written :
        (d : Disk) (s : Slot Block)
        → (write_slot dev d s).0 ≡ true
        → Written (write_slot dev d s).1 s
    write_slot-Written d s = go s.raw s.bno s.buf s.dirty
      where
        go :
            (raw : Bool) (bno : ℕ) (buf : Block) (dirty : Bool)
            → let s' : Slot Block = record { bno = bno; buf = buf; dirty = dirty; raw = raw } in
              (write_slot dev d s').0 ≡ true → Written (write_slot dev d s').1 s'
        go true bno buf dirty h =
            unfold write_slot fetch in law.raw_back d bno buf (unfold write_slot in h)
        go false bno buf dirty h =
            unfold write_slot fetch in law.checked_back d bno buf (unfold write_slot in h)

    Written-Alike : (d d' : Disk) (s : Slot Block) → Alike d' d s.bno → Written d s → Written d' s
    Written-Alike d d' s a w = a s.raw ∙ w

    -- the same slot at another place, and another disk before that reads alike
    Flushed-later :
        (d0 d d' : Disk) (b : ℕ) (o : Option (ℕ × Slot Block))
        → Alike d d0 b
        → Flushed d d' b o
        → Flushed d0 d' b (elim o [ none ↦ none | some (i, r) ↦ some (suc i, r) ])
    unfolding Flushed
    Flushed-later d0 d d' b none a f = λ raw. f raw ∙ a raw
    Flushed-later d0 d d' b (some (i, r)) a f = elim (Bool-cases r.dirty) [
      | inl e ↦ simp e (subst (λ c. if c then Written d' r else Alike d' d b) e f)
      | inr e ↦
          simp e (λ raw. (subst (λ c. if c then Written d' r else Alike d' d b) e f) raw ∙ a raw)
    ]

    found_head :
        (s : Slot Block) (ss : List (Slot Block)) (b : ℕ)
        → (s.bno == b) ≡ true
        → find (s ∷ ss) b ≡ some (0, s)
    unfolding find
    found_head s ss b e = rw e refl

    found_tail :
        (s : Slot Block) (ss : List (Slot Block)) (b : ℕ)
        → (s.bno == b) ≡ false
        → find (s ∷ ss) b ≡ elim (find ss b) [ none ↦ none | some (i, r) ↦ some (suc i, r) ]
    unfolding find
    found_tail s ss b e = rw e refl

    flush_clean :
        (s : Slot Block) (ss : List (Slot Block)) (d : Disk)
        → s.dirty ≡ false
        → flush dev d (s ∷ ss) ≡ flush dev d ss
    unfolding flush
    flush_clean s ss d e = simp e

    flush_dirty :
        (s : Slot Block) (ss : List (Slot Block)) (d : Disk)
        → s.dirty ≡ true
        → ((flush dev d (s ∷ ss)).0
            ≡ ((write_slot dev d s).0 && (flush dev (write_slot dev d s).1 ss).0))
          × ((flush dev d (s ∷ ss)).2 ≡ (flush dev (write_slot dev d s).1 ss).2)
    unfolding flush
    flush_dirty s ss d e = (simp e, simp e)

    both : (a b : Bool) → (a && b) ≡ true → (a ≡ true) × (b ≡ true)
    both true b h = (refl, h)
    both false b h = absurd (ground (arith, h))

    head-Written :
        (d d' : Disk) (b : ℕ) (s : Slot Block)
        → s.dirty ≡ true
        → Written d' s
        → Flushed d d' b (some (0, s))
    unfolding Flushed
    head-Written d d' b s e w = simp e w

    head_kept :
        (d d' : Disk) (b : ℕ) (s : Slot Block)
        → s.dirty ≡ false
        → Alike d' d b
        → Flushed d d' b (some (0, s))
    unfolding Flushed
    head_kept d d' b s e a = simp e a

    absent :
        (s : Slot Block) (ss : List (Slot Block)) (b : ℕ)
        → s.bno ≡ b
        → IsDistinct (s ∷ ss)
        → find ss b ≡ none
    unfolding IsDistinct
    absent s ss b e u = subst (λ c. find ss c ≡ none) e u.0

    kept :
        (d d' : Disk) (b : ℕ) (o : Option (ℕ × Slot Block))
        → o ≡ none
        → Flushed d d' b o
        → Alike d' d b
    unfolding Flushed
    kept d d' b o e f = subst (Flushed d d' b) e f

    flush-Flushed :
        (ss : List (Slot Block)) (d : Disk) (b : ℕ)
        → IsDistinct ss
        → (flush dev d ss).0 ≡ true
        → Flushed d (flush dev d ss).2 b (find ss b)
    flush-Flushed [] d b u ok = unfold flush find Flushed in λ raw. refl
    flush-Flushed (s ∷ ss) d b u ok = elim (Bool-cases s.dirty) [
      | inl e ↦
          let w = write_slot dev d s in
          let (wrote, rest) = both w.0 (flush dev w.1 ss).0 (sym (flush_dirty s ss d e).0 ∙ ok) in
          let later = flush-Flushed ss w.1 b (unfold IsDistinct in u.1) rest in
          elim (Bool-cases (s.bno == b)) [
            | inl h ↦
                let at : s.bno ≡ b = ground (arith, h) in
                let here : Alike (flush dev w.1 ss).2 w.1 b =
                  kept w.1 _ b (find ss b) (absent s ss b at u) later in
                rw (found_head s ss b h, (flush_dirty s ss d e).1)
                  (head-Written d _ b s e (
                    Written-Alike w.1 _ s (subst (Alike (flush dev w.1 ss).2 w.1) (sym at) here)
                      (write_slot-Written d s wrote)))
            | inr h ↦
                rw (found_tail s ss b h, (flush_dirty s ss d e).1)
                  (Flushed-later d w.1 _ b (find ss b) (write_slot-Alike d s b h) later)
          ]
      | inr e ↦
          let later =
            flush-Flushed ss d b (unfold IsDistinct in u.1)
              (ap (λ r. r.0) (sym (flush_clean s ss d e)) ∙ ok) in
          elim (Bool-cases (s.bno == b)) [
            | inl h ↦
                rw (found_head s ss b h, flush_clean s ss d e)
                  (head_kept d _ b s e
                    (kept d _ b (find ss b) (absent s ss b (ground (arith, h)) u) later))
            | inr h ↦
                rw (found_tail s ss b h, flush_clean s ss d e)
                  (Flushed-later d d _ b (find ss b) (λ raw. refl) later)
          ]
    ]

    commit_refused :
        (d : Disk) (st : Stats) (t : Txn Block) → t.failed ≡ true → (commit dev d st t).0 ≡ e_io
    unfolding commit
    commit_refused d st t f = simp f

    commit_broken :
        (d : Disk) (st : Stats) (t : Txn Block)
        → t.failed ≡ false
        → (flush dev d t.slots).0 ≡ false
        → (commit dev d st t).0 ≡ e_io
    unfolding commit
    commit_broken d st t f bad = simp (f, bad)

    commit_done :
        (d : Disk) (st : Stats) (t : Txn Block)
        → t.failed ≡ false
        → (flush dev d t.slots).0 ≡ true
        → ((commit dev d st t).1 ≡ (flush dev d t.slots).2) × ((commit dev d st t).3.slots ≡ [])
    unfolding commit release
    commit_done d st t f good = (simp (f, good), simp (f, good))

    -- Over a device that reads back what it wrote, if the commit of a transaction that holds each
    -- block once answers e_ok, then every dirty block reads back its buffer, sealed where the block
    -- is a checked one, and every other block reads as before. The slots are let go.
    pub commit-Flushed :
        (d : Disk) (st : Stats) (t : Txn Block)
        → IsTxn t
        → (commit dev d st t).0 ≡ e_ok
        → ((b : ℕ) → Flushed d (commit dev d st t).1 b (find t.slots b))
          × ((commit dev d st t).3.slots ≡ [])
    commit-Flushed d st t v ok = elim (Bool-cases t.failed) [
      | inl f ↦ absurd (io-ne-ok (sym (commit_refused d st t f) ∙ ok))
      | inr f ↦ elim (Bool-cases (flush dev d t.slots).0) [
        | inl good ↦
            let done = commit_done d st t f good in
            (λ b. rw done.0 (flush-Flushed t.slots d b v.distinct good), done.1)
        | inr bad ↦ absurd (io-ne-ok (sym (commit_broken d st t f bad) ∙ ok))
      ]
    ]
