-- ===== src/PortSpace.antt =====
-- mach/port_space.c: a task's table from names to rights. The table is a function on names, of which
-- the first `capacity` count. ps_lock is held while the table changes, and what an operation does to
-- the port or set after dropping it is a list of calls, in their order: a port or a set is known by a
-- number, and NULL is `none`. Whether kcalloc had memory is the argument `mem`, and whether a port is
-- dead the argument `died`.
pub mod Slots
pub mod Invariant
pub mod Preserve
pub mod Reachable
pub mod Balance
pub mod Accounts
pub mod Moves
pub mod Balanced
pub mod Names
pub mod Dead
pub mod DeadNames
pub mod Teardown
mod Tests
use style9_os.Base.{
  ℕ, zero, suc, ◌+◌, ◌-◌, ◌*◌, ◌%◌, ◌^◌, ◌≡◌, Bool, true, false, not, ◌&&◌, ◌||◌, Option, none,
  some, List, [], ◌∷◌, ◌++◌, ltb, leb, ◌==◌, if◌then◌else◌, add64, sub64, put, min,
}
use style9_os.PortRights.{
  Rights, no_rights, set_right, send_right, receive_right, is_empty, both, without, allows, Code,
  ok, inval, bad_name, bad_right, nospace, nomem,
}

-- struct port_entry
pub record Entry : Type 0 where
  pub port : Option ℕ
  pub set : Option ℕ
  pub rights : Rights
  pub dead : Bool

abbrev pub blank : Entry
blank = record { port = none; set = none; rights = no_rights; dead = false }

pub record Space : Type 0 where
  pub table : ℕ → Entry
  pub capacity : ℕ
  pub inuse : ℕ
  pub hint : ℕ

-- what is called once ps_lock is dropped
pub data Call : Type 0 where
  port_ref : ℕ → Rights → Call
  port_deref : ℕ → Rights → Call
  set_ref : ℕ → Call
  set_deref : ℕ → Call
  notify_send_once : ℕ → Call

pub record Outcome : Type 0 where
  pub code : Code
  pub name : ℕ
  pub after : Space
  pub calls : List Call

-- MACH_PORT_DEAD
abbrev pub name_dead : ℕ
name_dead = 2 ^ 32 - 1

abbrev pub is_reserved : ℕ → Bool
is_reserved name = name == 0 || name == name_dead

abbrev pub is_some : Option ℕ → Bool
is_some none = false
is_some (some p) = true

abbrev pub is_free : Entry → Bool
is_free e = not (is_some e.port || is_some e.set || e.dead)

abbrev pub fail : Code → Space → Outcome
fail code ps = record { code = code; name = 0; after = ps; calls = [] }

abbrev pub done : Space → List Call → Outcome
done ps calls = record { code = ok; name = 0; after = ps; calls = calls }

-- INITIAL_SPACE_CAP
abbrev pub initial_space_cap : ℕ
initial_space_cap = 16

unfoldable pub new : Space
new = record { table = λ i. blank; capacity = initial_space_cap; inuse = 0; hint = 1 }

-- a loop over the slots: `left` of them from `i` on
unfoldable pub find_free : ℕ → (ℕ → Entry) → ℕ → Option ℕ
find_free zero table i = none
find_free (suc left) table i =
    let rest = find_free left table (suc i) in if is_free (table i) then some i else rest

abbrev pub or_else : Option ℕ → Option ℕ → Option ℕ
or_else none o = o
or_else (some n) o = some n

abbrev pub start_of : Space → ℕ
start_of ps = if ps.hint == 0 then 1 else ps.hint

-- both loops of space_alloc_slot_locked
unfoldable pub search_slot : Space → Option ℕ
search_slot ps =
    let start = start_of ps in
    or_else (find_free (ps.capacity - start) ps.table start)
      (find_free (min start ps.capacity - 1) ps.table 1)

-- space_grow_locked to twice the size
unfoldable pub grow : Space → Space
grow ps = record ps {
  table = λ i. if ltb i ps.capacity then ps.table i else blank;
  capacity = ps.capacity * 2;
}

-- what space_alloc_slot_locked answers
pub data Alloc : Type 0 where
  taken : ℕ → Space → Alloc
  refused : Code → Space → Alloc

-- the label `found`, for the slot `i`
unfoldable pub take_slot : Space → ℕ → Alloc
take_slot ps i =
    let n = i % 2 ^ 32 in
    let next = (n + 1) % 2 ^ 32 in
    taken n
      (record ps { inuse = add64 ps.inuse 1; hint = if ltb next ps.capacity then next else 1 })

abbrev pub take_or : Option ℕ → Space → Alloc → Alloc
take_or none ps other = other
take_or (some i) ps other = take_slot ps i

unfoldable pub alloc_slot_locked : Bool → Space → Alloc
alloc_slot_locked mem ps = take_or (search_slot ps) ps (
    if mem
    then take_or (search_slot (grow ps)) (grow ps) (refused nospace (grow ps))
    else refused nomem ps)

-- the slot filled in
unfoldable pub fill_slot : Option ℕ → Option ℕ → Rights → List Call → Alloc → Outcome
fill_slot port set rights calls (refused code ps) = fail code ps
fill_slot port set rights calls (taken n ps) = record {
  code = ok;
  name = n;
  after = record ps {
    table = put ps.table n (record (ps.table n) { port = port; set = set; rights = rights });
  };
  calls = calls;
}

unfoldable pub install : Bool → Space → Option ℕ → Rights → Outcome
install mem ps none rights = fail inval ps
install mem ps (some p) rights =
    if is_empty rights
    then fail inval ps
    else fill_slot (some p) none rights (port_ref p rights ∷ []) (alloc_slot_locked mem ps)

unfoldable pub install_set : Bool → Space → Option ℕ → Outcome
install_set mem ps none = fail inval ps
install_set mem ps (some s) =
    fill_slot none (some s) set_right (set_ref s ∷ []) (alloc_slot_locked mem ps)

unfoldable pub install_no_ref : Bool → Space → Option ℕ → Rights → Outcome
install_no_ref mem ps none rights = fail inval ps
install_no_ref mem ps (some p) rights =
    if is_empty rights
    then fail inval ps
    else fill_slot (some p) none rights [] (alloc_slot_locked mem ps)

unfoldable pub lookup : Space → ℕ → Rights → Option (ℕ × Rights)
lookup ps name need =
    if is_reserved name
    then none
    else if leb ps.capacity name
    then none
    else elim (ps.table name).port [
      | none ↦ none
      | some p ↦
          if allows (ps.table name).rights need then some (p, (ps.table name).rights) else none
    ]

unfoldable pub lookup_set : Space → ℕ → Option ℕ
lookup_set ps name =
    if is_reserved name then none else if leb ps.capacity name then none else (ps.table name).set

unfoldable pub name_is_dead : Space → ℕ → Bool
name_is_dead ps name = not (is_reserved name) && ltb name ps.capacity && (ps.table name).dead

-- the slot given back
abbrev pub give_back : Space → ℕ → Entry → Space
give_back ps name e = record ps {
  table = put ps.table name e;
  inuse = sub64 ps.inuse 1;
  hint = if ltb name ps.hint then name else ps.hint;
}

abbrev pub deref_port : Option ℕ → Rights → List Call
deref_port none r = []
deref_port (some p) r =
    if r.send_once then notify_send_once p ∷ port_deref p r ∷ [] else port_deref p r ∷ []

abbrev pub deref_set : Option ℕ → List Call
deref_set none = []
deref_set (some s) = set_deref s ∷ []

-- what dropping an entry calls
abbrev pub drop_calls : Entry → List Call
drop_calls e = deref_port e.port e.rights ++ deref_set e.set

abbrev pub emptied : Entry → Entry
emptied e = record e { port = none; set = none; rights = no_rights }

unfoldable pub drop : Space → ℕ → Outcome
drop ps name =
    let e = ps.table name in
    if is_reserved name
    then fail inval ps
    else if leb ps.capacity name
    then fail bad_name ps
    else if e.dead
    then done (give_back ps name (record e { dead = false })) []
    else if not (is_some e.port || is_some e.set)
    then fail bad_name ps
    else done (give_back ps name (emptied e)) (drop_calls e)

-- the table after one kind of right is taken from a name
unfoldable pub strip : Space → ℕ → Rights → Space
strip ps name right =
    let e = ps.table name in
    let left = without e.rights right in
    if is_empty left
    then give_back ps name (record e { rights = left; port = none })
    else record ps { table = put ps.table name (record e { rights = left }) }

unfoldable pub drop_one_right : Space → ℕ → Rights → Outcome
drop_one_right ps name right =
    let e = ps.table name in
    if is_reserved name
    then fail inval ps
    else if leb ps.capacity name
    then fail bad_name ps
    else elim e.port [
      | none ↦ fail bad_name ps
      | some p ↦
          if is_empty (both e.rights right)
          then fail bad_name ps
          else done (strip ps name right) (port_deref p right ∷ [])
    ]

unfoldable pub unbind_no_deref : Space → ℕ → Rights → Outcome
unbind_no_deref ps name right =
    let e = ps.table name in
    if is_reserved name
    then fail inval ps
    else if leb ps.capacity name || not (is_some e.port)
    then fail bad_name ps
    else if is_empty (both e.rights right)
    then fail bad_name ps
    else done (strip ps name right) []

-- what mach_port_type answers: 0, the rights, or MACH_PORT_TYPE_DEAD_NAME
pub data PortType : Type 0 where
  no_type : PortType
  rights_of : Rights → PortType
  dead_name : PortType

-- the entry of a port that died, made a dead name
abbrev pub buried : Entry → Entry
buried e = record e { port = none; set = none; rights = no_rights; dead = true }

abbrev pub deref_only : Option ℕ → Rights → List Call
deref_only none r = []
deref_only (some p) r = port_deref p r ∷ []

abbrev pub has_died : (ℕ → Bool) → Option ℕ → Bool
has_died died none = false
has_died died (some p) = died p

unfoldable pub port_type : (ℕ → Bool) → Space → ℕ → PortType × Space × List Call
port_type died ps name =
    let e = ps.table name in
    if is_reserved name || leb ps.capacity name
    then (no_type, ps, [])
    else if e.dead
    then (dead_name, ps, [])
    else if not (is_some e.port || is_some e.set)
    then (no_type, ps, [])
    else if is_some e.set || e.rights.receive
    then (rights_of e.rights, ps, [])
    else if not (has_died died e.port)
    then (rights_of e.rights, ps, [])
    else (dead_name, record ps { table = put ps.table name (buried e) }, deref_only e.port e.rights)

-- the loop of port_space_destroy, with `left` slots left from `i`
unfoldable pub destroy_from : ℕ → (ℕ → Entry) → ℕ → List Call
destroy_from zero table i = []
destroy_from (suc left) table i = drop_calls (table i) ++ destroy_from left table (suc i)

unfoldable pub destroy : Space → List Call
destroy ps = destroy_from (ps.capacity - 1) ps.table 1

-- port_space_inject_send, from one space into another
abbrev pub inject_found : Bool → Space → Option (ℕ × Rights) → Outcome
inject_found mem dst none = fail bad_right dst
inject_found mem dst (some (p, r)) = install mem dst (some p) send_right

unfoldable pub inject_send : Bool → Space → ℕ → Space → Outcome
inject_send mem src src_name dst = inject_found mem dst (lookup src src_name send_right)
