-- ===== src/PortSpace/Names.antt =====
-- Names as their holder sees them: installed ones, dead ones, and rights dropped in excess.
use style9_os.Base.{
  ℕ, ◌^◌, ◌<◌, ◌≡◌, refl, sym, ap, ◌∙◌, ◌≢◌, inl, inr, Bool, true, false, none, some, [], ◌∷◌, leb,
  if◌then◌else◌, Bool-cases, arith, put_self, put-other,
}
use style9_os.PortRights.{Rights, is_empty, without, both, allows, inval, nomem, ok}
use style9_os.PortSpace.{
  Entry, Space, Outcome, port_ref, port_deref, is_free, is_reserved, Alloc, fill_slot, install,
  strip, drop_one_right,
}
use style9_os.PortSpace.Slots.{Allocated, granted, full, alloc_slot_locked-Allocated}
use style9_os.PortSpace.Invariant.{IsSpace}
use style9_os.PortSpace.Invariant.{count-put}
use style9_os.PortSpace.Balance.{
  Kind, receiving, sending, sending_once, has, holds, held, given_back,
}
use style9_os.PortSpace.{lookup, fail, done}

-- What space_install answers: a name that was free, which looks up to the port with its rights, with
-- every other name as before and one call to port_ref; or an error, with the table unchanged.
pub data Installed (mem : Bool) (ps : Space) (p : ℕ) (r : Rights) : Outcome → Type 0 where
  at_name :
      (n : ℕ) (q : Space)
      → 0 < n
      → n < q.capacity
      → is_reserved n ≡ false
      → (n < ps.capacity → is_free (ps.table n) ≡ true)
      → ((need : Rights) → lookup q n need ≡ (if allows r need then some (p, r) else none))
      → ((k : ℕ) → k < ps.capacity → k ≢ n → q.table k ≡ ps.table k)
      → Installed mem ps p r (record { code = ok; name = n; after = q; calls = port_ref p r ∷ [] })
  no_right : is_empty r ≡ true → Installed mem ps p r (fail inval ps)
  no_memory :
      mem ≡ false
      → ((k : ℕ) → 0 < k → k < ps.capacity → is_free (ps.table k) ≡ false)
      → Installed mem ps p r (fail nomem ps)

filled-Installed :
    (mem : Bool) (ps : Space) (p : ℕ) (r : Rights) (a : Alloc)
    → ps.capacity < 2 ^ 31
    → Allocated mem ps a
    → Installed mem ps p r (fill_slot (some p) none r (port_ref p r ∷ []) a)
unfolding fill_slot lookup
filled-Installed mem ps p r _ small (full off all) = no_memory off all
filled-Installed mem ps p r _ small (granted n q s) =
    let e : Entry = record (q.table n) { port = some p; set = none; rights = r } in
    let inside : leb q.capacity n ≡ false = ground (arith, s.inside) in
    let self = put_self q.table n e n refl in
    let res : is_reserved n ≡ false = ground (arith, s.pos, s.inside, s.below) in
    at_name n _ s.pos s.inside res (λ h. ap is_free (sym (s.same n h)) ∙ s.free)
      (λ need. simp (res, inside, self)) (λ k h ne. put-other q.table n e k ne ∙ s.same k h)

-- In a table below 2 ^ 31 names, space_install makes a name that was free, and that looks up to
-- the port with its rights, leaves every other name as it was, and takes the rights' references;
-- or it changes nothing, because no right was given or because every name was taken and there was
-- no memory to grow the table.
pub install-Installed :
    (mem : Bool) (ps : Space) (p : ℕ) (r : Rights)
    → IsSpace ps
    → ps.capacity < 2 ^ 31
    → Installed mem ps p r (install mem ps (some p) r)
unfolding install
install-Installed mem ps p r v small = elim (Bool-cases (is_empty r)) [
  | inl empty ↦ simp empty (no_right empty)
  | inr held_some ↦
      simp held_some
        (filled-Installed mem ps p r _ small (alloc_slot_locked-Allocated mem ps v.room small))
]

without-lacks : (r s : Rights) (k : Kind) → has r k ≡ false → has (without r s) k ≡ false
without-lacks r s receiving h = ground arith
without-lacks r s sending h = ground arith
without-lacks r s sending_once h = ground arith

strip-held :
    (ps : Space) (name p : ℕ) (right : Rights) (k : Kind)
    → name < ps.capacity
    → has (ps.table name).rights k ≡ false
    → held (strip ps name right) p k ≡ held ps p k
unfolding strip
strip-held ps name p right k within lacks =
    let left : Rights = without (ps.table name).rights right in
    let left_lacks = without-lacks (ps.table name).rights right k lacks in
    let old : holds (ps.table name) p k ≡ false = ground (arith, lacks) in
    elim (Bool-cases (is_empty left)) [
      | inl empty ↦
          let e : Entry = record (ps.table name) { rights = left; port = none } in
          simp empty
            (ground (arith, count-put (λ x. holds x p k) ps.table name e ps.capacity within, old))
      | inr some_left ↦
          let e : Entry = record (ps.table name) { rights = left } in
          let new_lacks : holds e p k ≡ false = ground (arith, left_lacks) in
          simp some_left (
            ground (
              arith,
              count-put (λ x. holds x p k) ps.table name e ps.capacity within,
              old,
              new_lacks,
            ))
    ]

drop_one_right-eq :
    (ps : Space) (name p : ℕ) (right : Rights)
    → is_reserved name ≡ false
    → name < ps.capacity
    → (ps.table name).port ≡ some p
    → is_empty (both (ps.table name).rights right) ≡ false
    → drop_one_right ps name right ≡ done (strip ps name right) (port_deref p right ∷ [])
unfolding drop_one_right
drop_one_right-eq ps name p right res within named overlap =
    let inside : leb ps.capacity name ≡ false = ground (arith, within) in
    simp (res, inside, named, overlap)

self_deref :
    (p : ℕ) (right : Rights) (k : Kind)
    → has right k ≡ true
    → given_back (port_deref p right ∷ []) p k ≡ 1
unfolding given_back
self_deref p right k asks = ground (arith, asks)

-- space_drop_one_right asked for a right that the name does not hold, along with one that it does,
-- gives back a reference that is not the space's: the names hold as many as before.
pub drop_one_right-excess :
    (ps : Space) (name p : ℕ) (right : Rights) (k : Kind)
    → is_reserved name ≡ false
    → name < ps.capacity
    → (ps.table name).port ≡ some p
    → is_empty (both (ps.table name).rights right) ≡ false
    → has right k ≡ true
    → has (ps.table name).rights k ≡ false
    → (held (drop_one_right ps name right).after p k ≡ held ps p k)
      × (given_back (drop_one_right ps name right).calls p k ≡ 1)
unfolding given_back
drop_one_right-excess ps name p right k res within named overlap asks lacks =
    let same = drop_one_right-eq ps name p right res within named overlap in
    rw same (strip-held ps name p right k within lacks, self_deref p right k asks)
