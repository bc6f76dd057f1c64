-- ===== src/PortSpace/Invariant.antt =====
-- What holds of a name table between two calls, whatever operations were run on it.
use style9_os.Base.{
  ℕ, ◌+◌, ◌^◌, ◌<◌, ◌≡◌, refl, sym, subst, ap, ◌∙◌, ◌≢◌, inl, inr, Bool, true, false, not,
  Bool-cases, arith, ℕ_discrete, dec_lt, put, put_self, put-other, count, count_update, count-le,
  count_pos, count_wider, bit_value,
}
use style9_os.PortRights.{is_empty}
use style9_os.PortSpace.{Entry, Space, blank, is_some, is_free, give_back}
use style9_os.PortSpace.Slots.{Slot}

-- Counting the entries that pass a test, when one of them changes.
pub count-put :
    (f : Entry → Bool) (table : ℕ → Entry) (n : ℕ) (e : Entry) (cap : ℕ)
    → n < cap
    → count (λ i. f (put table n e i)) cap + bit_value (f (table n))
      ≡ count (λ i. f (table i)) cap + bit_value (f e)
count-put f table n e cap h =
    count_update (λ i. f (table i)) (λ i. f (put table n e i)) n (f e) cap h (λ i. ground arith)

-- The table that a slot comes from counts like the one before.
pub count-Slot :
    (f : Entry → Bool) (ps q : Space) (n : ℕ)
    → f blank ≡ false
    → Slot ps q n
    → count (λ i. f (q.table i)) q.capacity ≡ count (λ i. f (ps.table i)) ps.capacity
count-Slot f ps q n quiet s =
    count_wider (λ i. f (ps.table i)) (λ i. f (q.table i)) ps.capacity q.capacity s.wider
      (λ i h. ap f (s.same i h)) (λ i l u. ap f (s.fresh i l u) ∙ quiet)

-- An entry is a port's, a set's, a dead name's or nobody's.
pub record IsEntry (e : Entry) : Type 0 where
  pub port_alone :
      is_some e.port ≡ true
      → (is_some e.set ≡ false) × (e.dead ≡ false) × (is_empty e.rights ≡ false)
  pub set_alone : is_some e.set ≡ true → e.dead ≡ false

abbrev pub is_used : Entry → Bool
is_used e = not (is_free e)

pub record IsSpace (ps : Space) : Type 0 where
  pub counted : ps.inuse ≡ count (λ i. is_used (ps.table i)) ps.capacity
  pub null_free : is_free (ps.table 0) ≡ true
  pub entries : (k : ℕ) → k < ps.capacity → IsEntry (ps.table k)
  pub room : 0 < ps.capacity
  pub small : ps.capacity < 2 ^ 32

put-entries :
    (table : ℕ → Entry) (n : ℕ) (e : Entry) (cap : ℕ)
    → IsEntry e
    → ((k : ℕ) → k < cap → IsEntry (table k))
    → (k : ℕ) → k < cap
    → IsEntry (put table n e k)
put-entries table n e cap ie all k h = elim (ℕ_discrete k n) [
  | yes at ↦ subst IsEntry (sym (put_self table n e k at)) ie
  | no ne ↦ subst IsEntry (sym (put-other table n e k ne)) (all k h)
]

Slot-entries :
    (ps q : Space) (n : ℕ)
    → IsSpace ps
    → Slot ps q n
    → (k : ℕ) → k < q.capacity
    → IsEntry (q.table k)
Slot-entries ps q n v s k h = elim (dec_lt k ps.capacity) [
  | yes old ↦ subst IsEntry (sym (s.same k old)) (v.entries k old)
  | no past ↦
      subst IsEntry (sym (s.fresh k (omega arith) h))
        (record { port_alone = λ p. absurd (ground (arith, p)); set_alone = λ p. refl })
]

-- the caller's slot filled with an entry in use
pub filled-IsSpace :
    (ps q : Space) (n : ℕ) (e : Entry)
    → IsSpace ps
    → Slot ps q n
    → IsEntry e
    → is_free e ≡ false
    → IsSpace (record q { table = put q.table n e })
filled-IsSpace ps q n e v s ie used =
    let put_count = count-put is_used q.table n e q.capacity s.inside in
    let old_count = count-Slot is_used ps q n refl s in
    let bound = count-le (λ i. is_used (ps.table i)) ps.capacity in
    record {
      counted =
          ground (arith, put_count, old_count, bound, s.inuse, s.free, used, v.counted, v.small);
      null_free =
          subst (λ x. is_free x ≡ true) (sym (put-other q.table n e 0 (omega (arith, s.pos))))
            (subst (λ x. is_free x ≡ true) (sym (s.same 0 v.room)) v.null_free);
      entries = put-entries q.table n e q.capacity ie (Slot-entries ps q n v s);
      room = omega (arith, s.wider, v.room);
      small = s.small;
    }

-- MACH_PORT_NULL names nothing
used_pos : (ps : Space) (n : ℕ) → IsSpace ps → is_free (ps.table n) ≡ false → 0 ≢ n
used_pos ps n v was e = ground (arith, v.null_free, was, ap (λ k. is_free (ps.table k)) e)

-- an entry replaced by one that is in use as before
pub kept-IsSpace :
    (ps : Space) (n : ℕ) (e : Entry)
    → IsSpace ps
    → n < ps.capacity
    → IsEntry e
    → is_free e ≡ false
    → is_free (ps.table n) ≡ false
    → IsSpace (record ps { table = put ps.table n e })
kept-IsSpace ps n e v h ie used was =
    let put_count = count-put is_used ps.table n e ps.capacity h in
    record {
      counted = ground (arith, put_count, used, was, v.counted);
      null_free =
          subst (λ x. is_free x ≡ true) (sym (put-other ps.table n e 0 (used_pos ps n v was)))
            v.null_free;
      entries = put-entries ps.table n e ps.capacity ie v.entries;
      room = v.room;
      small = v.small;
    }

-- an entry given back
pub freed-IsSpace :
    (ps : Space) (n : ℕ) (e : Entry)
    → IsSpace ps
    → n < ps.capacity
    → IsEntry e
    → is_free e ≡ true
    → is_free (ps.table n) ≡ false
    → IsSpace (give_back ps n e)
freed-IsSpace ps n e v h ie free was =
    let put_count = count-put is_used ps.table n e ps.capacity h in
    let some_used = count_pos (λ i. is_used (ps.table i)) n ps.capacity h (ground (arith, was)) in
    let bound = count-le (λ i. is_used (ps.table i)) ps.capacity in
    record {
      counted = ground (arith, put_count, some_used, bound, free, was, v.counted, v.small);
      null_free =
          subst (λ x. is_free x ≡ true) (sym (put-other ps.table n e 0 (used_pos ps n v was)))
            v.null_free;
      entries = put-entries ps.table n e ps.capacity ie v.entries;
      room = v.room;
      small = v.small;
    }

-- an entry that names neither a port nor a set
pub bare-IsEntry : (e : Entry) → is_some e.port ≡ false → is_some e.set ≡ false → IsEntry e
bare-IsEntry e p s = record {
  port_alone = λ q. absurd (ground (arith, p, q));
  set_alone = λ q. absurd (ground (arith, s, q));
}

-- a dead name names neither
pub dead_bare :
    (e : Entry) → IsEntry e → e.dead ≡ true → (is_some e.port ≡ false) × (is_some e.set ≡ false)
dead_bare e ie dead = (
  elim (Bool-cases (is_some e.port)) [
    | inl p ↦ absurd (ground (arith, (ie.port_alone p).1, dead))
    | inr p ↦ p
  ],
  elim (Bool-cases (is_some e.set)) [
    | inl q ↦ absurd (ground (arith, ie.set_alone q, dead))
    | inr q ↦ q
  ],
)
