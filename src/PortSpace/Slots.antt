-- ===== src/PortSpace/Slots.antt =====
-- space_alloc_slot_locked: a free slot is found wherever there is one, and after growing there is.
use style9_os.Base.{
  ℕ, zero, suc, ◌+◌, ◌-◌, ◌%◌, ◌^◌, ◌≤◌, ◌<◌, ◌≡◌, refl, sym, subst, ap, inl, inr, Bool, true,
  false, Option, none, some, ltb, Bool-cases, arith, ℕ_discrete, dec_lt, add64, min,
}
use style9_os.PortRights.{nospace, nomem}
use style9_os.PortSpace.{
  Entry, Space, blank, is_free, find_free, or_else, start_of, search_slot, grow, Alloc, taken,
  refused, take_slot, take_or, alloc_slot_locked,
}

-- What a search of the slots from `lo` up to `hi` answers.
pub data Searched (table : ℕ → Entry) (lo hi : ℕ) : Option ℕ → Type 0 where
  slot_at : (n : ℕ) → lo ≤ n → n < hi → is_free (table n) ≡ true → Searched table lo hi (some n)
  no_slot : ((k : ℕ) → lo ≤ k → k < hi → is_free (table k) ≡ false) → Searched table lo hi none

Searched-later :
    (table : ℕ → Entry) (lo hi : ℕ) (o : Option ℕ)
    → is_free (table lo) ≡ false
    → Searched table (suc lo) hi o
    → Searched table lo hi o
Searched-later table lo hi _ used (slot_at n l u f) = slot_at n (omega arith) u f
Searched-later table lo hi _ used (no_slot h) = no_slot (λ k l u. elim (ℕ_discrete k lo) [
  | yes e ↦ subst (λ j. is_free (table j) ≡ false) (sym e) used
  | no ne ↦ h k (omega arith) u
])

find_free-Searched :
    (left : ℕ) (table : ℕ → Entry) (lo hi : ℕ)
    → lo + left ≡ hi
    → Searched table lo hi (find_free left table lo)
unfolding find_free
find_free-Searched zero table lo hi e = no_slot (λ k l u. absurd (omega arith))
find_free-Searched (suc left) table lo hi e = elim (Bool-cases (is_free (table lo))) [
  | inl f ↦ rw f (slot_at lo (omega arith) (omega arith) f)
  | inr used ↦
      rw used (
        Searched-later table lo hi _ used (find_free-Searched left table (suc lo) hi (omega arith)))
]

Searched-both :
    (table : ℕ → Entry) (start hi : ℕ) (o p : Option ℕ)
    → 0 < start
    → ((k : ℕ) → start ≤ k → k < hi → o ≡ none → is_free (table k) ≡ false)
    → ((n : ℕ) → o ≡ some n → (1 ≤ n) × (n < hi) × (is_free (table n) ≡ true))
    → Searched table 1 (min start hi) p
    → Searched table 1 hi (or_else o p)
Searched-both table start hi (some n) p h miss hit s =
    let at = hit n refl in slot_at n at.0 at.1 at.2
Searched-both table start hi none _ h miss hit (slot_at n l u f) = slot_at n l (grind arith) f
Searched-both table start hi none _ h miss hit (no_slot g) = no_slot (λ k l u.
    elim (dec_lt k start) [
      | yes early ↦ g k l (grind arith)
      | no late ↦ miss k (omega arith) u refl
    ])

Searched-miss :
    {table : ℕ → Entry} {lo hi : ℕ} {o : Option ℕ}
    → Searched table lo hi o
    → o ≡ none
    → (k : ℕ) → lo ≤ k
    → k < hi
    → is_free (table k) ≡ false
Searched-miss (slot_at n l u f) e = absurd (cc e)
Searched-miss (no_slot h) e = h

Searched-hit :
    {table : ℕ → Entry} {lo hi : ℕ} {o : Option ℕ}
    → Searched table lo hi o
    → (n : ℕ) → o ≡ some n
    → (lo ≤ n) × (n < hi) × (is_free (table n) ≡ true)
Searched-hit (slot_at m l u f) n e = ground (arith, l, u, f, e)
Searched-hit (no_slot h) n e = absurd (cc e)

start_of-pos : (ps : Space) → 0 < start_of ps
start_of-pos ps = ground arith

-- Both loops together search every slot but that of MACH_PORT_NULL.
pub search_slot-Searched :
    (ps : Space) → 0 < ps.capacity → Searched ps.table 1 ps.capacity (search_slot ps)
unfolding search_slot
search_slot-Searched ps room =
    let start : ℕ = start_of ps in
    let pos : 0 < start = start_of-pos ps in
    let second =
      find_free-Searched (min start ps.capacity - 1) ps.table 1 (min start ps.capacity)
        (grind arith) in
    let first =
      find_free-Searched (ps.capacity - start) ps.table start (start + (ps.capacity - start))
        refl in
    Searched-both ps.table start ps.capacity _ _ pos
      (λ k l u e. Searched-miss first e k l (omega arith))
      (λ n e. let h = Searched-hit first n e in (omega (arith, h.0), omega (arith, h.0, h.1), h.2))
      second

-- The table that the slot is taken from is `ps`, or `ps` with room for more names.
pub record Grown (ps q : Space) : Type 0 where
  pub same : (k : ℕ) → k < ps.capacity → q.table k ≡ ps.table k
  pub wider : ps.capacity ≤ q.capacity
  pub fresh : (k : ℕ) → ps.capacity ≤ k → k < q.capacity → q.table k ≡ blank
  pub inuse : q.inuse ≡ ps.inuse
  pub small : q.capacity < 2 ^ 32
  pub below : q.capacity < 2 ^ 32 - 1

-- Slot `n` of `q`, which was free, is the caller's: it is counted, and is yet to be filled in.
pub record Slot (ps q : Space) (n : ℕ) : Type 0 where
  pub pos : 0 < n
  pub inside : n < q.capacity
  pub free : is_free (q.table n) ≡ true
  pub same : (k : ℕ) → k < ps.capacity → q.table k ≡ ps.table k
  pub wider : ps.capacity ≤ q.capacity
  pub fresh : (k : ℕ) → ps.capacity ≤ k → k < q.capacity → q.table k ≡ blank
  pub inuse : q.inuse ≡ add64 ps.inuse 1
  pub small : q.capacity < 2 ^ 32
  pub below : q.capacity < 2 ^ 32 - 1

-- What space_alloc_slot_locked answers: a slot, or MACH_E_NOMEM with every name taken.
pub data Allocated (mem : Bool) (ps : Space) : Alloc → Type 0 where
  granted : (n : ℕ) (q : Space) → Slot ps q n → Allocated mem ps (taken n q)
  full :
      mem ≡ false
      → ((k : ℕ) → 0 < k → k < ps.capacity → is_free (ps.table k) ≡ false)
      → Allocated mem ps (refused nomem ps)

take_slot-Allocated :
    (mem : Bool) (ps q : Space) (n : ℕ)
    → Grown ps q
    → 0 < n
    → n < q.capacity
    → is_free (q.table n) ≡ true
    → Allocated mem ps (take_slot q n)
unfolding take_slot
take_slot-Allocated mem ps q n g pos inside free =
    let same : n % 2 ^ 32 ≡ n = omega (arith, g.small) in
    rw same (
      granted n _ (record {
        pos = pos;
        inside = inside;
        free = free;
        same = g.same;
        wider = g.wider;
        fresh = g.fresh;
        inuse = ap (λ x. add64 x 1) g.inuse;
        small = g.small;
        below = g.below;
      }))

Grown-refl : (ps : Space) → ps.capacity < 2 ^ 31 → Grown ps ps
Grown-refl ps small = record {
  same = λ k h. refl;
  wider = omega arith;
  fresh = λ k l u. absurd (omega arith);
  inuse = refl;
  small = omega arith;
  below = omega arith;
}

Grown-grow : (ps : Space) → ps.capacity < 2 ^ 31 → Grown ps (grow ps)
unfolding grow
Grown-grow ps small = record {
  same = λ k h. let in_old : ltb k ps.capacity ≡ true = ground arith in rw in_old refl;
  wider = omega arith;
  fresh = λ k l u. let past : ltb k ps.capacity ≡ false = ground arith in rw past refl;
  inuse = refl;
  small = omega arith;
  below = omega arith;
}

grown-Allocated :
    (mem : Bool) (ps : Space) (o : Option ℕ)
    → 0 < ps.capacity
    → ps.capacity < 2 ^ 31
    → Searched (grow ps).table 1 (grow ps).capacity o
    → Allocated mem ps (take_or o (grow ps) (refused nospace (grow ps)))
unfolding grow
grown-Allocated mem ps _ room small (slot_at n l u f) =
    take_slot-Allocated mem ps (grow ps) n (Grown-grow ps small) l u f
grown-Allocated mem ps _ room small (no_slot h) =
    let g = Grown-grow ps small in
    let used = h ps.capacity (omega arith) (omega arith) in
    absurd (ground (arith, used, g.fresh ps.capacity (omega arith) (omega arith)))

first-Allocated :
    (mem : Bool) (ps : Space) (o : Option ℕ) (other : Alloc)
    → ps.capacity < 2 ^ 31
    → Searched ps.table 1 ps.capacity o
    → (((k : ℕ) → 0 < k → k < ps.capacity → is_free (ps.table k) ≡ false) → Allocated mem ps other)
    → Allocated mem ps (take_or o ps other)
first-Allocated mem ps _ other small (slot_at n l u f) rest =
    take_slot-Allocated mem ps ps n (Grown-refl ps small) l u f
first-Allocated mem ps _ other small (no_slot h) rest = rest h

-- A name is found whenever there is memory to grow the table, so MACH_E_NOSPACE is never answered.
pub alloc_slot_locked-Allocated :
    (mem : Bool) (ps : Space)
    → 0 < ps.capacity
    → ps.capacity < 2 ^ 31
    → Allocated mem ps (alloc_slot_locked mem ps)
unfolding alloc_slot_locked grow
alloc_slot_locked-Allocated true ps room small =
    first-Allocated true ps _ _ small (search_slot-Searched ps room)
      (λ h. grown-Allocated true ps _ room small (search_slot-Searched (grow ps) (omega arith)))
alloc_slot_locked-Allocated false ps room small =
    first-Allocated false ps _ _ small (search_slot-Searched ps room) (λ h. full refl h)
