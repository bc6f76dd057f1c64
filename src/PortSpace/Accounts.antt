-- ===== src/PortSpace/Accounts.antt =====
-- Each operation on a name table against the references of the rights that it gains and loses.
use style9_os.Base.{
  ℕ, ◌+◌, ◌^◌, ◌<◌, ◌≡◌, refl, ap₂, inl, inr, Bool, true, false, ◌&&◌, ◌||◌, Option, none, some,
  Option-cases, List, [], ◌∷◌, leb, ◌==◌, Bool-cases, arith, put, count, bit_value,
}
use style9_os.PortRights.{Rights, is_empty, without, both, allows}
use style9_os.PortSpace.{
  Entry, Space, Call, blank, port_deref, drop_calls, deref_only, is_some, is_reserved, Alloc,
  fill_slot, install, install_set, give_back, drop, strip, drop_one_right, has_died, buried,
  port_type,
}
use style9_os.PortSpace.Slots.{Allocated, granted, full, alloc_slot_locked-Allocated}
use style9_os.PortSpace.Invariant.{IsEntry, IsSpace, dead_bare}
use style9_os.PortSpace.Invariant.{count-put, count-Slot}
use style9_os.PortSpace.Balance.{
  Kind, has, is_port, holds, held, taken_by, given_back, IsBalanced, free_holds,
  drop_calls-given_back, without-has, empty-has,
}

-- nothing changed and nothing was called
pub idle-IsBalanced : (ps : Space) (p : ℕ) (k : Kind) → IsBalanced ps ps [] p k
unfolding taken_by given_back
idle-IsBalanced ps p k = refl

-- A slot is filled, with a call for what it holds.
pub fill_slot-IsBalanced :
    (mem : Bool) (ps : Space) (port set : Option ℕ) (rights : Rights) (calls : List Call)
    (a : Alloc) (p : ℕ) (k : Kind)
    → given_back calls p k ≡ 0
    → taken_by calls p k ≡ bit_value (is_port port p && has rights k)
    → Allocated mem ps a
    → IsBalanced ps
        (fill_slot port set rights calls a).after
        (fill_slot port set rights calls a).calls
        p
        k
unfolding fill_slot taken_by given_back
fill_slot-IsBalanced mem ps port set rights calls _ p k none_back took (full off all) = refl
fill_slot-IsBalanced mem ps port set rights calls _ p k none_back took (granted n q s) =
    let e : Entry = record (q.table n) { port = port; set = set; rights = rights } in
    let change = count-put (λ x. holds x p k) q.table n e q.capacity s.inside in
    let before = count-Slot (λ x. holds x p k) ps q n refl s in
    ground (arith, change, before, free_holds (q.table n) p k s.free, none_back, took)

pub install-IsBalanced :
    (mem : Bool) (ps : Space) (o : Option ℕ) (r : Rights) (p : ℕ) (k : Kind)
    → IsSpace ps
    → ps.capacity < 2 ^ 31
    → IsBalanced ps (install mem ps o r).after (install mem ps o r).calls p k
unfolding install taken_by given_back
install-IsBalanced mem ps none r p k v small = refl
install-IsBalanced mem ps (some q) r p k v small = elim (Bool-cases (is_empty r)) [
  | inl empty ↦ simp empty refl
  | inr held_some ↦ simp held_some (
      fill_slot-IsBalanced mem ps (some q) none r _ _ p k refl (omega arith)
        (alloc_slot_locked-Allocated mem ps v.room small))
]

pub install_set-IsBalanced :
    (mem : Bool) (ps : Space) (o : Option ℕ) (p : ℕ) (k : Kind)
    → IsSpace ps
    → ps.capacity < 2 ^ 31
    → IsBalanced ps (install_set mem ps o).after (install_set mem ps o).calls p k
unfolding install_set taken_by given_back
install_set-IsBalanced mem ps none p k v small = refl
install_set-IsBalanced mem ps (some s) p k v small =
    fill_slot-IsBalanced mem ps none (some s) _ _ _ p k refl refl
      (alloc_slot_locked-Allocated mem ps v.room small)

-- An entry is replaced, with calls for the difference.
put-IsBalanced :
    (ps q : Space) (n : ℕ) (e : Entry) (calls : List Call) (p : ℕ) (k : Kind)
    → n < ps.capacity
    → q.table ≡ put ps.table n e
    → q.capacity ≡ ps.capacity
    → bit_value (holds e p k) + given_back calls p k
      ≡ bit_value (holds (ps.table n) p k) + taken_by calls p k
    → IsBalanced ps q calls p k
put-IsBalanced ps q n e calls p k h et ec bal =
    let change = count-put (λ x. holds x p k) ps.table n e ps.capacity h in
    let same : held q p k ≡ count (λ i. holds (put ps.table n e i) p k) ps.capacity =
      ap₂ (λ (t : ℕ → Entry) c. count (λ i. holds (t i) p k) c) et ec in
    omega (arith, change, same, bal)

-- a dead name holds no right
dead_calls :
    (e e' : Entry) (p : ℕ) (k : Kind)
    → IsEntry e
    → e.dead ≡ true
    → e'.port ≡ e.port
    → bit_value (holds e' p k) + given_back [] p k ≡ bit_value (holds e p k) + taken_by [] p k
unfolding taken_by given_back
dead_calls e e' p k ie dead same = elim (Option-cases e.port) [
  | inl nobody ↦ simp (same, nobody)
  | inr (q, named) ↦ absurd (ground (arith, (dead_bare e ie dead).0, named))
]

pub drop-IsBalanced :
    (ps : Space) (name p : ℕ) (k : Kind)
    → IsSpace ps
    → IsBalanced ps (drop ps name).after (drop ps name).calls p k
unfolding drop
drop-IsBalanced ps name p k v = elim (Bool-cases (is_reserved name)) [
  | inl res ↦ simp res (idle-IsBalanced ps p k)
  | inr open_name ↦ elim (Bool-cases (leb ps.capacity name)) [
    | inl out ↦ simp (open_name, out) (idle-IsBalanced ps p k)
    | inr inside ↦
        let within : name < ps.capacity = ground (arith, inside) in
        elim (Bool-cases (ps.table name).dead) [
          | inl dead ↦
              let e : Entry = record (ps.table name) { dead = false } in
              simp (open_name, inside, dead)
                (put-IsBalanced ps (give_back ps name e) name e [] p k within refl refl
                  (dead_calls (ps.table name) e p k (v.entries name within) dead refl))
          | inr lives ↦
              elim (Bool-cases (is_some (ps.table name).port || is_some (ps.table name).set)) [
                | inr nobody ↦ simp (open_name, inside, lives, nobody) (idle-IsBalanced ps p k)
                | inl named ↦
                    let calls = drop_calls-given_back (ps.table name) p k in
                    simp (open_name, inside, lives, named)
                      (put-IsBalanced ps (give_back ps name blank) name blank
                        (drop_calls (ps.table name)) p k within refl refl
                        (omega (arith, calls.0, calls.1)))
              ]
        ]
  ]
]

port_holds :
    (e : Entry) (q p : ℕ) (k : Kind) → e.port ≡ some q → holds e p k ≡ (q == p && has e.rights k)
port_holds e q p k named = simp named

deref_only-given_back :
    (e : Entry) (p : ℕ) (k : Kind)
    → (given_back (deref_only e.port e.rights) p k ≡ bit_value (holds e p k))
      × (taken_by (deref_only e.port e.rights) p k ≡ 0)
unfolding given_back taken_by
deref_only-given_back e p k = elim (Option-cases e.port) [
  | inl nobody ↦ simp nobody (refl, refl)
  | inr (q, named) ↦ simp named (omega arith, refl)
]

pub strip-IsBalanced :
    (ps : Space) (name : ℕ) (right : Rights) (q p : ℕ) (k : Kind)
    → name < ps.capacity
    → (ps.table name).port ≡ some q
    → allows (ps.table name).rights right ≡ true
    → IsBalanced ps (strip ps name right) (port_deref q right ∷ []) p k
unfolding strip given_back taken_by
strip-IsBalanced ps name right q p k within named a =
    let e : Entry = ps.table name in
    let parts = without-has e.rights right k a in
    elim (Bool-cases (is_empty (without e.rights right))) [
      | inl empty ↦
          let rest = empty-has (without e.rights right) k empty in
          let e' : Entry = record e { rights = without e.rights right; port = none } in
          simp empty (
            put-IsBalanced ps (give_back ps name e') name e' (port_deref q right ∷ []) p k within
              refl refl (ground (arith, parts, rest, port_holds e q p k named)))
      | inr left ↦
          let e' : Entry = record e { rights = without e.rights right } in
          simp left (
            put-IsBalanced ps (record ps { table = put ps.table name e' }) name e'
              (port_deref q right ∷ []) p k within refl refl
              (ground (arith, parts, port_holds e q p k named, port_holds e' q p k named)))
    ]

pub drop_one_right-IsBalanced :
    (ps : Space) (name : ℕ) (right : Rights) (p : ℕ) (k : Kind)
    → allows (ps.table name).rights right ≡ true
    → IsBalanced ps (drop_one_right ps name right).after (drop_one_right ps name right).calls p k
unfolding drop_one_right
drop_one_right-IsBalanced ps name right p k a = elim (Bool-cases (is_reserved name)) [
  | inl res ↦ simp res (idle-IsBalanced ps p k)
  | inr open_name ↦ elim (Bool-cases (leb ps.capacity name)) [
    | inl out ↦ simp (open_name, out) (idle-IsBalanced ps p k)
    | inr inside ↦ elim (Option-cases (ps.table name).port) [
      | inl nobody ↦ simp (open_name, inside, nobody) (idle-IsBalanced ps p k)
      | inr (q, named) ↦ elim (Bool-cases (is_empty (both (ps.table name).rights right))) [
        | inl none_of ↦ simp (open_name, inside, named, none_of) (idle-IsBalanced ps p k)
        | inr some_of ↦
            simp (open_name, inside, named, some_of)
              (strip-IsBalanced ps name right q p k (ground (arith, inside)) named a)
      ]
    ]
  ]
]

pub port_type-IsBalanced :
    (died : ℕ → Bool) (ps : Space) (name p : ℕ) (k : Kind)
    → IsBalanced ps (port_type died ps name).1 (port_type died ps name).2 p k
unfolding port_type
port_type-IsBalanced died ps name p k =
    elim (Bool-cases (is_reserved name || leb ps.capacity name)) [
      | inl out ↦ simp out (idle-IsBalanced ps p k)
      | inr inside ↦ elim (Bool-cases (ps.table name).dead) [
        | inl dead ↦ simp (inside, dead) (idle-IsBalanced ps p k)
        | inr lives ↦
            elim (Bool-cases (is_some (ps.table name).port || is_some (ps.table name).set)) [
              | inr nobody ↦ simp (inside, lives, nobody) (idle-IsBalanced ps p k)
              | inl named ↦
                  elim (Bool-cases
                    (is_some (ps.table name).set || (ps.table name).rights.receive)) [
                      | inl keeps ↦ simp (inside, lives, named, keeps) (idle-IsBalanced ps p k)
                      | inr sends ↦ elim (Bool-cases (has_died died (ps.table name).port)) [
                        | inr alive ↦
                            simp (inside, lives, named, sends, alive) (idle-IsBalanced ps p k)
                        | inl gone ↦
                            let e : Entry = buried (ps.table name) in
                            let calls = deref_only-given_back (ps.table name) p k in
                            simp (inside, lives, named, sends, gone)
                              (put-IsBalanced ps (record ps { table = put ps.table name e }) name e
                                (deref_only (ps.table name).port (ps.table name).rights) p k
                                (ground (arith, inside)) refl refl
                                (omega (arith, calls.0, calls.1)))
                      ]
                    ]
            ]
      ]
    ]
