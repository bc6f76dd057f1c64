-- ===== src/PortSpace/DeadNames.antt =====
-- A dead name keeps its slot until its holder drops it.
use style9_os.Base.{
  ℕ, ◌≡◌, ◌≢◌, inl, inr, true, false, none, Option-cases, List, ltb, leb, Bool-cases, arith,
}
use style9_os.PortRights.{Rights}
use style9_os.PortSpace.{Space, Call, is_reserved}
use style9_os.PortSpace.Invariant.{IsSpace, dead_bare}
use style9_os.PortSpace.Reachable.{
  Step, installs, installs_set, drops, drops_one, types, Reach, Reach-IsSpace,
}
use style9_os.PortSpace.{lookup, name_is_dead}
use style9_os.PortSpace.Reachable.{Move, installs_no_ref, unbinds}
use style9_os.PortSpace.Reachable.{Step-IsSpace, Move-IsSpace}
use style9_os.PortSpace.Dead.{
  IsDead, install-IsDead, install_no_ref-IsDead, install_set-IsDead, drop-IsDead,
  drop_one_right-IsDead, unbind_no_deref-IsDead, port_type-IsDead,
}

-- A step that is not the holder's own drop of the name.
abbrev pub Spares : ℕ → {ps q : Space} {calls : List Call} → Step ps q calls → Type 0
Spares n (drops name) = name ≢ n
Spares n s = Unit

-- Calls on the table by which no one drops `n`.
pub data Later (n : ℕ) (ps : Space) : Space → Type 0 where
  now : Later n ps ps
  stepped_on :
      {q r : Space} {calls : List Call}
      → Later n ps q
      → (s : Step q r calls) → Spares n s
      → Later n ps r
  moved_on : {q r : Space} → Later n ps q → Move q r → Later n ps r

Step-IsDead :
    {ps q : Space} {calls : List Call} (n : ℕ) (s : Step ps q calls)
    → Spares n s
    → IsSpace ps
    → IsDead n ps
    → IsDead n q
Step-IsDead {ps} n (installs mem p r small) k v d = install-IsDead n mem ps p r v small d
Step-IsDead {ps} n (installs_set mem o small) k v d = install_set-IsDead n mem ps o v small d
Step-IsDead {ps} n (drops name) k v d = drop-IsDead n ps name d k
Step-IsDead {ps} n (drops_one name r) k v d = drop_one_right-IsDead n ps name r d
Step-IsDead {ps} n (types died name) k v d = port_type-IsDead n died ps name d

Move-IsDead : {ps q : Space} (n : ℕ) → Move ps q → IsSpace ps → IsDead n ps → IsDead n q
Move-IsDead {ps} n (installs_no_ref mem p r small) v d =
    install_no_ref-IsDead n mem ps p r v small d
Move-IsDead {ps} n (unbinds name r) v d = unbind_no_deref-IsDead n ps name r d

Later-IsDead :
    {n : ℕ} {ps q : Space} → IsSpace ps → IsDead n ps → Later n ps q → IsSpace q × IsDead n q
Later-IsDead v d now = (v, d)
Later-IsDead {n} v d (stepped_on l s k) =
    let h = Later-IsDead v d l in (Step-IsSpace s h.0, Step-IsDead n s k h.0 h.1)
Later-IsDead {n} v d (moved_on l m) =
    let h = Later-IsDead v d l in (Move-IsSpace m h.0, Move-IsDead n m h.0 h.1)

dead-lookup : (n : ℕ) (q : Space) (need : Rights) → IsSpace q → IsDead n q → lookup q n need ≡ none
unfolding lookup
dead-lookup n q need v d =
    let bare = dead_bare (q.table n) (v.entries n d.0) d.1 in
    elim (Option-cases (q.table n).port) [
      | inl nobody ↦ elim (Bool-cases (is_reserved n)) [
        | inl res ↦ simp res
        | inr open_name ↦ elim (Bool-cases (leb q.capacity n)) [
          | inl out ↦ simp (open_name, out)
          | inr inside ↦ simp (open_name, inside, nobody)
        ]
      ]
      | inr (p, named) ↦ absurd (ground (arith, bare.0, named))
    ]

-- A dead name stays dead, and looks up to no port, through any sequence of operations on the table in
-- which its holder does not drop it: no other right is installed under it.
pub name_is_dead-stays :
    (n : ℕ) (ps q : Space)
    → Reach ps
    → name_is_dead ps n ≡ true
    → Later n ps q
    → (name_is_dead q n ≡ true) × ((need : Rights) → lookup q n need ≡ none)
unfolding name_is_dead
name_is_dead-stays n ps q r dead l =
    let open_name : is_reserved n ≡ false = ground (arith, dead) in
    let start : IsDead n ps = ground (arith, dead) in
    let later = Later-IsDead (Reach-IsSpace r) start l in
    let inside : ltb n q.capacity ≡ true = ground (arith, later.1.0) in
    (ground (arith, open_name, inside, later.1.1), λ need. dead-lookup n q need later.0 later.1)
