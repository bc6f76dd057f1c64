-- ===== src/FsTxn/Fetch.antt =====
-- txn_get: one buffer for each block, and what a transaction holds between two calls.
use style9_os.Base.{
  ℕ, suc, ◌≤◌, ◌≡◌, refl, sym, subst, ap, ◌∙◌, ◌≢◌, ◌⊎◌, inl, inr, Bool, true, false, Option, none,
  some, List, [], ◌∷◌, ◌++◌, leb, ◌==◌, Bool-cases, Option-cases, arith, length, length-append,
}
use mathlib.Core.Option.{none-ne-some}
use style9_os.FsTxn.{
  Slot, Txn, Code, Device, e_ok, e_io, e_nomem, e_full, find, fetch, fresh_slot, same, reuse, touch,
  get, poison,
}

-- No block has two slots.
unfoldable pub IsDistinct : {Block : Type 0} → List (Slot Block) → Type 0
IsDistinct [] = Unit
IsDistinct (s ∷ ss) = (find ss s.bno ≡ none) × IsDistinct ss

pub record IsTxn {Block : Type 0} (t : Txn Block) : Type 0 where
  pub distinct : IsDistinct t.slots
  pub few : length t.slots ≤ 12

same_block : (n : ℕ) → (n == n) ≡ true
same_block n = ground arith

module _ {Block : Type 0} where
  pub find-cons_none :
      (s : Slot Block) (ss : List (Slot Block)) (b : ℕ)
      → find (s ∷ ss) b ≡ none
      → ((s.bno == b) ≡ false) × (find ss b ≡ none)
  unfolding find
  find-cons_none s ss b e = elim (Bool-cases (s.bno == b)) [
    | inl h ↦ absurd (none-ne-some (0, s) (sym e ∙ rw h refl))
    | inr h ↦ (
      h,
      elim (Option-cases (find ss b)) [
        | inl k ↦ k
        | inr (r, k) ↦ absurd (none-ne-some (suc r.0, r.1) (sym e ∙ rw (h, k) refl))
      ],
    )
  ]

  pub find-cons :
      (s : Slot Block) (ss : List (Slot Block)) (b : ℕ)
      → (s.bno == b) ≡ false
      → find ss b ≡ none
      → find (s ∷ ss) b ≡ none
  unfolding find
  find-cons s ss b h k = rw (h, k) refl

  -- With a slot for a new block at the end, that block is found there.
  find-append_new :
      (ss : List (Slot Block)) (n : Slot Block)
      → find ss n.bno ≡ none
      → find (ss ++ (n ∷ [])) n.bno ≡ some (length ss, n)
  unfolding find
  find-append_new [] n e = rw (same_block n.bno) refl
  find-append_new (s ∷ ss) n e =
      let (h, k) = find-cons_none s ss n.bno e in rw (h, find-append_new ss n k) refl

  -- Every other block is found as before.
  find-append_other :
      (ss : List (Slot Block)) (n : Slot Block) (b : ℕ)
      → (n.bno == b) ≡ false
      → find (ss ++ (n ∷ [])) b ≡ find ss b
  unfolding find
  find-append_other [] n b e = rw e refl
  find-append_other (s ∷ ss) n b e = rw (find-append_other ss n b e) refl

  append-IsDistinct :
      (ss : List (Slot Block)) (n : Slot Block)
      → IsDistinct ss
      → find ss n.bno ≡ none
      → IsDistinct (ss ++ (n ∷ []))
  unfolding IsDistinct
  append-IsDistinct [] n d e = (unfold find in refl, tt)
  append-IsDistinct (s ∷ ss) n d e =
      let (h, k) = find-cons_none s ss n.bno e in
      (find-append_other ss n s.bno (ground (arith, h)) ∙ d.0, append-IsDistinct ss n d.1 k)

-- What txn_get answers. Either a buffer: the slot of the block, fetched the same way, where the
-- transaction is the one before or has read the block just now, with every other block where it was.
-- Or a code other than e_ok, and the transaction is poisoned and keeps its slots.
pub data Got {Block : Type 0} (t : Txn Block) (bno : ℕ) (raw : Bool) (read : Option Block)
    : Code × Option ℕ × Txn Block → Type 0 where
  handed :
      (i : ℕ) (s : Slot Block) (q : Txn Block)
      → find q.slots bno ≡ some (i, s)
      → same s.raw raw ≡ true
      → q.failed ≡ false
      → IsTxn q
      → (q ≡ t) ⊎ ((find t.slots bno ≡ none) × (s ≡ fresh_slot bno s.buf raw) × (read ≡ some s.buf))
      → ((b : ℕ) → (bno == b) ≡ false → find q.slots b ≡ find t.slots b)
      → Got t bno raw read (e_ok, some i, q)
  refused :
      (c : Code) (q : Txn Block)
      → c ≢ e_ok
      → q.failed ≡ true
      → q.slots ≡ t.slots
      → Got t bno raw read (c, none, q)

same_self : (b : Bool) → same b b ≡ true
same_self true = refl
same_self false = refl

pub io-ne-ok : e_io ≢ e_ok
io-ne-ok e = cc

module _ {Disk Block : Type 0} (mem : Bool) (dev : Device Disk Block) (disk : Disk) (t : Txn Block)
    (bno : ℕ) (raw : Bool) (v : IsTxn t) where
  touch-Got :
      t.failed ≡ false
      → find t.slots bno ≡ none
      → Got t bno raw (fetch dev disk bno raw) (touch mem dev disk t bno raw)
  unfolding touch
  touch-Got f e = elim (Bool-cases (leb 12 (length t.slots))) [
    | inl full ↦ rw full (refused e_full (poison t) (λ k. cc) refl refl)
    | inr room ↦ elim (Bool-cases mem) [
      | inr out ↦ rw (room, out) (refused e_nomem (poison t) (λ k. cc) refl refl)
      | inl has ↦ elim (Option-cases (fetch dev disk bno raw)) [
        | inl bad ↦ rw (room, has, bad) (refused e_io (poison t) io-ne-ok refl refl)
        | inr (b, good) ↦
            let n = fresh_slot bno b raw in
            rw (room, has, good)
              (handed (length t.slots) n (record t { slots = t.slots ++ (n ∷ []) })
                (find-append_new t.slots n e) (same_self raw) f
                (record {
                  distinct = append-IsDistinct t.slots n v.distinct e;
                  few = ground (arith, room, length-append t.slots (n ∷ []));
                })
                (inr (e, refl, refl)) (λ c ne. find-append_other t.slots n c ne))
      ]
    ]
  ]

  -- txn_get of a transaction without two slots for one block: it hands out the block's only buffer,
  -- read by the first call, or it poisons the transaction and leaves its slots alone.
  pub get-Got : Got t bno raw (fetch dev disk bno raw) (get mem dev disk t bno raw)
  unfolding get reuse
  get-Got = elim (Bool-cases t.failed) [
    | inl f ↦ simp f (refused e_io t io-ne-ok f refl)
    | inr f ↦ elim (Option-cases (find t.slots bno)) [
      | inl e ↦ simp (f, e) (touch-Got f e)
      | inr (r, e) ↦ elim (Bool-cases (same r.1.raw raw)) [
        | inl agree ↦ simp (f, e, agree) (handed r.0 r.1 t e agree f v (inl refl) (λ b ne. refl))
        | inr differ ↦ simp (f, e, differ) (refused e_io (poison t) io-ne-ok refl refl)
      ]
    ]
  ]

-- In a transaction without two slots for one block, asking again for a block that was handed out
-- gives the same buffer and changes nothing, also with no memory left and whatever is on the disk
-- by then.
pub get_again :
    {Disk Block : Type 0} (mem mem' : Bool) (dev : Device Disk Block) (disk disk' : Disk)
    (t q : Txn Block) (bno i : ℕ) (raw : Bool)
    → IsTxn t
    → get mem dev disk t bno raw ≡ (e_ok, some i, q)
    → get mem' dev disk' q bno raw ≡ (e_ok, some i, q)
unfolding get reuse
get_again mem mem' dev disk disk' t q bno i raw v e =
    go (get mem dev disk t bno raw) (get-Got mem dev disk t bno raw v) e
  where
    go :
        (r : Code × Option ℕ × Txn _)
        → Got t bno raw (fetch dev disk bno raw) r
        → r ≡ (e_ok, some i, q)
        → get mem' dev disk' q bno raw ≡ (e_ok, some i, q)
    go (e_ok, some i', q') (handed i'' s q'' at agree f w how rest) e =
        subst (λ r. get mem' dev disk' r.2 bno raw ≡ r) e (simp (f, at, agree))
    go (e_io, some i', q') g e = elim g [ ]
    go (e_nomem, some i', q') g e = elim g [ ]
    go (e_full, some i', q') g e = elim g [ ]
    go (c, none, q') (refused c' q'' bad f same') e = absurd (bad (ap (λ r. r.0) e))
