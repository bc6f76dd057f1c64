-- ===== src/PortSpace/Reachable.antt =====
-- The tables that the operations can reach from port_space_new.
use style9_os.Base.{ℕ, ◌^◌, ◌<◌, refl, sym, Bool, false, Option, List, arith, count_none}
use style9_os.PortRights.{Rights}
use style9_os.PortSpace.{
  Space, Call, new, install, install_set, install_no_ref, drop, drop_one_right, unbind_no_deref,
  port_type,
}
use style9_os.PortSpace.Invariant.{IsSpace, bare-IsEntry}
use style9_os.PortSpace.Preserve.{
  install-IsSpace, install_no_ref-IsSpace, install_set-IsSpace, drop-IsSpace,
  drop_one_right-IsSpace, unbind_no_deref-IsSpace, port_type-IsSpace,
}

-- One call on the table, with the references that it takes and gives back. A table of 2 ^ 31 names
-- does not fit into memory.
pub data Step (ps : Space) : Space → List Call → Type 0 where
  installs :
      (mem : Bool) (p : Option ℕ) (r : Rights)
      → ps.capacity < 2 ^ 31
      → Step ps (install mem ps p r).after (install mem ps p r).calls
  installs_set :
      (mem : Bool) (s : Option ℕ)
      → ps.capacity < 2 ^ 31
      → Step ps (install_set mem ps s).after (install_set mem ps s).calls
  drops : (name : ℕ) → Step ps (drop ps name).after (drop ps name).calls
  drops_one :
      (name : ℕ) (r : Rights)
      → Step ps (drop_one_right ps name r).after (drop_one_right ps name r).calls
  types :
      (died : ℕ → Bool) (name : ℕ) → Step ps (port_type died ps name).1 (port_type died ps name).2

-- A right moved into the table, or out of it, with the reference that goes with it.
pub data Move (ps : Space) : Space → Type 0 where
  installs_no_ref :
      (mem : Bool) (p : Option ℕ) (r : Rights)
      → ps.capacity < 2 ^ 31
      → Move ps (install_no_ref mem ps p r).after
  unbinds : (name : ℕ) (r : Rights) → Move ps (unbind_no_deref ps name r).after

pub data Reach : Space → Type 0 where
  created : Reach new
  stepped : {ps q : Space} {calls : List Call} → Reach ps → Step ps q calls → Reach q
  moved : {ps q : Space} → Reach ps → Move ps q → Reach q

pub Step-IsSpace : {ps q : Space} {calls : List Call} → Step ps q calls → IsSpace ps → IsSpace q
Step-IsSpace {ps} (installs mem p r small) v = install-IsSpace ps v mem p r small
Step-IsSpace {ps} (installs_set mem s small) v = install_set-IsSpace ps v mem s small
Step-IsSpace {ps} (drops name) v = drop-IsSpace ps v name
Step-IsSpace {ps} (drops_one name r) v = drop_one_right-IsSpace ps v name r
Step-IsSpace {ps} (types died name) v = port_type-IsSpace ps v died name

pub Move-IsSpace : {ps q : Space} → Move ps q → IsSpace ps → IsSpace q
Move-IsSpace {ps} (installs_no_ref mem p r small) v = install_no_ref-IsSpace ps v mem p r small
Move-IsSpace {ps} (unbinds name r) v = unbind_no_deref-IsSpace ps v name r

new-IsSpace : IsSpace new
unfolding new
new-IsSpace = record {
  counted = sym (count_none (λ i. false) 16 (λ i h. refl));
  null_free = refl;
  entries = λ k h. bare-IsEntry _ refl refl;
  room = omega arith;
  small = omega arith;
}

-- Whatever operations are run on a table that port_space_new made, ps_inuse counts the names in use,
-- MACH_PORT_NULL names nothing, and no name is at once a port's, a set's and dead.
pub Reach-IsSpace : {ps : Space} → Reach ps → IsSpace ps
Reach-IsSpace created = new-IsSpace
Reach-IsSpace (stepped r s) = Step-IsSpace s (Reach-IsSpace r)
Reach-IsSpace (moved r m) = Move-IsSpace m (Reach-IsSpace r)
