-- ===== src/VmObject.antt =====
-- vm/vm_object.c: reference counts of the objects that back map entries. An object is a number, NULL
-- is `none`. The last reference closes the file: `closed` lists the objects whose handle was given to
-- fs_close, newest first.
pub mod Pager
mod Tests
use style9_os.Base.{ℕ, ◌+◌, ◌-◌, ◌%◌, ◌^◌, Option, none, some, List, ◌∷◌, ◌==◌, if◌then◌else◌}

pub record Objects : Type 0 where
  pub refs : ℕ → ℕ
  pub closed : List ℕ

abbrev pub put : (ℕ → ℕ) → ℕ → ℕ → ℕ → ℕ
put f o v o' = if o' == o then v else f o'

unfoldable pub ref : Objects → Option ℕ → Objects
ref s none = s
ref s (some o) = record s { refs = put s.refs o ((s.refs o + 1) % 2 ^ 32) }

unfoldable pub deref : Objects → Option ℕ → Objects
deref s none = s
deref s (some o) =
    let left = (s.refs o + 2 ^ 32 - 1) % 2 ^ 32 in
    let s' = record s { refs = put s.refs o left } in
    if left == 0 then record s' { closed = o ∷ s.closed } else s'
