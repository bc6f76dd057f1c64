-- ===== src/PortSpace/Moves.antt =====
-- space_install_no_ref and space_unbind_no_deref: a right that is moved with its reference.
use style9_os.Base.{
  ℕ, ◌^◌, ◌<◌, ◌≡◌, refl, inl, inr, Bool, true, Option, none, some, Option-cases, List, [], ◌∷◌,
  leb, Bool-cases, arith,
}
use style9_os.PortRights.{Rights, is_empty, both, allows, Code, ok}
use style9_os.PortSpace.{
  Space, Call, port_ref, port_deref, is_reserved, Alloc, fill_slot, install_no_ref, unbind_no_deref,
}
use style9_os.PortSpace.Slots.{Allocated, granted, full, alloc_slot_locked-Allocated}
use style9_os.PortSpace.Invariant.{IsSpace}
use style9_os.PortSpace.Reachable.{Move, installs_no_ref, unbinds}
use style9_os.PortSpace.Balance.{Kind, taken_by, given_back, IsBalanced}
use style9_os.PortSpace.Accounts.{idle-IsBalanced, fill_slot-IsBalanced, strip-IsBalanced}

-- The references that come with a right that is moved in, and those that go with one moved out, each
-- written as the call that would have taken it or given it back. A refused move carries none.
abbrev pub carried_in : Code → Option ℕ → Rights → List Call
carried_in ok (some p) r = port_ref p r ∷ []
carried_in _ _ r = []

abbrev pub carried_out : Code → Option ℕ → Rights → List Call
carried_out ok (some p) r = port_deref p r ∷ []
carried_out _ _ r = []

abbrev pub carried : {ps q : Space} → Move ps q → List Call
carried {ps} (installs_no_ref mem p r small) = carried_in (install_no_ref mem ps p r).code p r
carried {ps} (unbinds name r) = carried_out (unbind_no_deref ps name r).code (ps.table name).port r

fill_slot-carried :
    (mem : Bool) (ps : Space) (q : ℕ) (r : Rights) (a : Alloc) (p : ℕ) (k : Kind)
    → Allocated mem ps a
    → IsBalanced ps
        (fill_slot (some q) none r [] a).after
        (carried_in (fill_slot (some q) none r [] a).code (some q) r)
        p
        k
unfolding fill_slot taken_by given_back
fill_slot-carried mem ps q r _ p k (full off all) = refl
fill_slot-carried mem ps q r _ p k (granted n t s) =
    fill_slot-IsBalanced mem ps (some q) none r (port_ref q r ∷ []) _ p k refl (omega arith)
      (granted n t s)

install_no_ref-IsBalanced :
    (mem : Bool) (ps : Space) (o : Option ℕ) (r : Rights) (p : ℕ) (k : Kind)
    → IsSpace ps
    → ps.capacity < 2 ^ 31
    → IsBalanced ps
        (install_no_ref mem ps o r).after
        (carried_in (install_no_ref mem ps o r).code o r)
        p
        k
unfolding install_no_ref
install_no_ref-IsBalanced mem ps none r p k v small = idle-IsBalanced ps p k
install_no_ref-IsBalanced mem ps (some q) r p k v small = elim (Bool-cases (is_empty r)) [
  | inl empty ↦ simp empty (idle-IsBalanced ps p k)
  | inr held_some ↦
      simp held_some
        (fill_slot-carried mem ps q r _ p k (alloc_slot_locked-Allocated mem ps v.room small))
]

unbind_no_deref-IsBalanced :
    (ps : Space) (name : ℕ) (r : Rights) (p : ℕ) (k : Kind)
    → allows (ps.table name).rights r ≡ true
    → IsBalanced ps
        (unbind_no_deref ps name r).after
        (carried_out (unbind_no_deref ps name r).code (ps.table name).port r)
        p
        k
unfolding unbind_no_deref
unbind_no_deref-IsBalanced ps name r p k a = elim (Bool-cases (is_reserved name)) [
  | inl res ↦ simp res (idle-IsBalanced ps p k)
  | inr open_name ↦ elim (Option-cases (ps.table name).port) [
    | inl nobody ↦ elim (Bool-cases (leb ps.capacity name)) [
      | inl out ↦ simp (open_name, nobody, out) (idle-IsBalanced ps p k)
      | inr inside ↦ simp (open_name, nobody, inside) (idle-IsBalanced ps p k)
    ]
    | inr (q, named) ↦ elim (Bool-cases (leb ps.capacity name)) [
      | inl out ↦ simp (open_name, named, out) (idle-IsBalanced ps p k)
      | inr inside ↦ elim (Bool-cases (is_empty (both (ps.table name).rights r))) [
        | inl none_of ↦ simp (open_name, named, inside, none_of) (idle-IsBalanced ps p k)
        | inr some_of ↦
            let bal = strip-IsBalanced ps name r q p k (ground (arith, inside)) named a in
            simp (open_name, named, inside, some_of) bal
      ]
    ]
  ]
]

-- A call to unbind moves only rights that the name holds.
abbrev pub MovesHeld : {ps q : Space} → Move ps q → Type 0
MovesHeld (installs_no_ref mem p r small) = Unit
MovesHeld {ps} (unbinds name r) = allows (ps.table name).rights r ≡ true

pub Move-IsBalanced :
    {ps q : Space} (m : Move ps q) (p : ℕ) (k : Kind)
    → IsSpace ps
    → MovesHeld m
    → IsBalanced ps q (carried m) p k
Move-IsBalanced {ps} (installs_no_ref mem o r small) p k v h =
    install_no_ref-IsBalanced mem ps o r p k v small
Move-IsBalanced {ps} (unbinds name r) p k v h = unbind_no_deref-IsBalanced ps name r p k h
