-- ===== src/Witness.antt =====
-- kern/witness.c: the lock-order checker that every spinlock calls. A lock's name is its pointer, a
-- number, as the code compares names by identity; `anon` is the address of "(anon)". A call runs on the
-- tables as its CPU sees them, the argument, and answers them with what it adds. Class registration
-- holds witness_reg_lock, but the loads and stores of edges hold no lock and are relaxed: what another
-- CPU stores while the call runs is not in its argument, and in the code's own words may be seen one
-- acquire late. The held stack is the eight locks at most of th_held.
pub mod Classes
pub mod Order
pub mod Acquire
pub mod Held
mod Tests
use style9_os.Base.{
  ℕ, zero, suc, ◌+◌, ◌≡◌, Bool, true, false, not, ◌&&◌, ◌||◌, Option, none, some, List, [], ◌∷◌,
  ◌++◌, ltb, leb, ◌==◌, if◌then◌else◌, length,
}

-- struct witness_held: one lock on a thread's stack, and where it was taken
pub record Lock : Type 0 where
  pub name : ℕ
  pub ra : ℕ

-- The class table, whose first witness_nclasses entries are the list, and the edge matrix.
pub record Witness : Type 0 where
  pub classes : List ℕ
  pub edges : ℕ → ℕ → Bool

abbrev pub max_classes : ℕ
max_classes = 48

abbrev pub max_held : ℕ
max_held = 8

unfoldable pub class_find : List ℕ → ℕ → Option ℕ
class_find [] name = none
class_find (c ∷ cs) name =
    if c == name then some 0 else elim (class_find cs name) [ none ↦ none | some i ↦ some (suc i) ]

-- class_of: the class, registered on first sight while the table has room
unfoldable pub class_of : Witness → ℕ → Option ℕ × Witness
class_of w name = elim (class_find w.classes name) [
  | some i ↦ (some i, w)
  | none ↦
      if ltb (length w.classes) max_classes
      then (some (length w.classes), record w { classes = w.classes ++ (name ∷ []) })
      else (none, w)
]

unfoldable pub set_edge : Witness → ℕ → ℕ → Witness
set_edge w i j = record w { edges = λ a b. if a == i && b == j then true else w.edges a b }

-- one held class against the new one: none is witness_panic_cycle
unfoldable pub check_class : Witness → ℕ → Option ℕ → Option Witness
check_class w new_class none = some w
check_class w new_class (some held_class) =
    if held_class == new_class
    then some w
    else if w.edges new_class held_class
    then none
    else some (set_edge w held_class new_class)

unfoldable pub check_one : Witness → ℕ → Lock → Option Witness
check_one w new_class h =
    let (held_class, w') = class_of w h.name in check_class w' new_class held_class

-- the loop over the held stack, oldest first
unfoldable pub check_held : Witness → ℕ → List Lock → Option Witness
check_held w new_class [] = some w
check_held w new_class (h ∷ hs) = elim (check_one w new_class h) [
  | none ↦ none
  | some w' ↦ check_held w' new_class hs
]

unfoldable pub push : List Lock → ℕ → ℕ → List Lock
push held name ra =
    if ltb (length held) max_held then held ++ (record { name = name; ra = ra } ∷ []) else held

abbrev pub name_of : ℕ → Option ℕ → ℕ
name_of anon none = anon
name_of anon (some n) = n

-- witness_acquired with the new lock's class, or none when the table is full
unfoldable pub order : Witness → Option ℕ → List Lock → ℕ → ℕ → Option (Witness × List Lock)
order w none held name ra = some (w, held)
order w (some new_class) held name ra = elim (check_held w new_class held) [
  | none ↦ none
  | some w' ↦ some (w', push held name ra)
]

-- witness_acquired by a thread with that held stack, on the tables that it sees (before the scheduler, with no thread, it returns
-- at once)
unfoldable pub acquired : ℕ → Witness → List Lock → Option ℕ → ℕ → Option (Witness × List Lock)
acquired anon w held sl_name ra =
    let name = name_of anon sl_name in
    let (new_class, w') = class_of w name in order w' new_class held name ra

-- the downward loop of witness_released: the last lock of that name goes, and those above move down
unfoldable pub strike : List Lock → ℕ → Option (List Lock)
strike [] name = none
strike (h ∷ hs) name = elim (strike hs name) [
  | some rest ↦ some (h ∷ rest)
  | none ↦ if h.name == name then some hs else none
]

-- the top of the stack, and the stack without it
unfoldable pub top_is : List Lock → ℕ → Bool
top_is [] name = false
top_is (h ∷ []) name = h.name == name
top_is (h ∷ g ∷ hs) name = top_is (g ∷ hs) name

unfoldable pub drop_top : List Lock → List Lock
drop_top [] = []
drop_top (h ∷ []) = []
drop_top (h ∷ g ∷ hs) = h ∷ drop_top (g ∷ hs)

unfoldable pub released : ℕ → List Lock → Option ℕ → List Lock
released anon held sl_name =
    let name = name_of anon sl_name in
    if length held == 0
    then held
    else if top_is held name
    then drop_top held
    else elim (strike held name) [ none ↦ held | some rest ↦ rest ]
