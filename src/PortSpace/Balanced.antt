-- ===== src/PortSpace/Balanced.antt =====
-- The references that an operation on a name table takes and gives back, or moves.
use style9_os.Base.{ℕ, ◌+◌, ◌≡◌, true, List}
use style9_os.PortRights.{allows}
use style9_os.PortSpace.{Space, Call}
use style9_os.PortSpace.Invariant.{IsSpace}
use style9_os.PortSpace.Moves.{carried, MovesHeld, Move-IsBalanced}
use style9_os.PortSpace.Reachable.{
  Move, Step, installs, installs_set, drops, drops_one, types, Reach, Reach-IsSpace,
}
use style9_os.PortSpace.Balance.{Kind, held, taken_by, given_back, IsBalanced}
use style9_os.PortSpace.Accounts.{
  install-IsBalanced, install_set-IsBalanced, drop-IsBalanced, drop_one_right-IsBalanced,
  port_type-IsBalanced,
}

-- A call to drop rights drops only rights that the name holds.
abbrev pub DropsHeld : {ps q : Space} {calls : List Call} → Step ps q calls → Type 0
DropsHeld (installs mem p r small) = Unit
DropsHeld (installs_set mem s small) = Unit
DropsHeld (drops name) = Unit
DropsHeld {ps} (drops_one name r) = allows (ps.table name).rights r ≡ true
DropsHeld (types died name) = Unit

Step-IsBalanced :
    {ps q : Space} {calls : List Call} (s : Step ps q calls) (p : ℕ) (k : Kind)
    → IsSpace ps
    → DropsHeld s
    → IsBalanced ps q calls p k
Step-IsBalanced {ps} (installs mem o r small) p k v h = install-IsBalanced mem ps o r p k v small
Step-IsBalanced {ps} (installs_set mem o small) p k v h =
    install_set-IsBalanced mem ps o p k v small
Step-IsBalanced {ps} (drops name) p k v h = drop-IsBalanced ps name p k v
Step-IsBalanced {ps} (drops_one name r) p k v h = drop_one_right-IsBalanced ps name r p k h
Step-IsBalanced {ps} (types died name) p k v h = port_type-IsBalanced died ps name p k

-- One change of the table, with the references that change hands: those that the calls after it take
-- and give back, or those that come or go with a right that is moved.
pub data Change (ps : Space) : Space → List Call → Type 0 where
  calls_for : {q : Space} {calls : List Call} → Step ps q calls → Change ps q calls
  carries : {q : Space} (m : Move ps q) → Change ps q (carried m)

abbrev pub TakesHeld : {ps q : Space} {refs : List Call} → Change ps q refs → Type 0
TakesHeld (calls_for s) = DropsHeld s
TakesHeld (carries m) = MovesHeld m

-- An install, a drop, an unbind or a mach_port_type on a reachable table loses as many names that hold a
-- right of each kind to a port as references of that kind are given back, and gains as many as are
-- taken, provided that space_drop_one_right and space_unbind_no_deref are asked only for rights that the
-- name holds. space_install, space_install_set, the drops and mach_port_type take and give back by the
-- calls that they make once ps_lock is dropped; space_install_no_ref and space_unbind_no_deref call
-- nothing, and the reference that counts is the one that the moved right has brought or takes along.
pub Change-IsBalanced :
    {ps q : Space} {refs : List Call} (c : Change ps q refs) (p : ℕ) (k : Kind)
    → Reach ps
    → TakesHeld c
    → held q p k + given_back refs p k ≡ held ps p k + taken_by refs p k
Change-IsBalanced (calls_for s) p k v h = Step-IsBalanced s p k (Reach-IsSpace v) h
Change-IsBalanced (carries m) p k v h = Move-IsBalanced m p k (Reach-IsSpace v) h
