-- ===== src/PortSpace/Dead.antt =====
-- Each operation on a name table keeps a dead name dead, but for its holder's drop.
use style9_os.Base.{
  ℕ, ◌^◌, ◌<◌, ◌≡◌, refl, sym, ap, ◌∙◌, ◌≢◌, inl, inr, Bool, true, false, not, ◌||◌, Option, none,
  some, Option-cases, List, [], leb, Bool-cases, arith, ℕ_discrete, put, put_self, put-other,
}
use style9_os.PortRights.{Rights, is_empty, without, both}
use style9_os.PortSpace.{
  Entry, Space, Call, blank, is_some, is_reserved, Alloc, fill_slot, install, install_set,
  install_no_ref, give_back, drop, strip, drop_one_right, unbind_no_deref, has_died, buried,
  port_type,
}
use style9_os.PortSpace.Slots.{Allocated, granted, full, alloc_slot_locked-Allocated}
use style9_os.PortSpace.Invariant.{IsSpace}

-- The name is still in the table, and dead.
abbrev pub IsDead : ℕ → Space → Type 0
IsDead n ps = (n < ps.capacity) × ((ps.table n).dead ≡ true)

put-IsDead :
    (n : ℕ) (ps q : Space) (name : ℕ) (e : Entry)
    → IsDead n ps
    → q.capacity ≡ ps.capacity
    → q.table ≡ put ps.table name e
    → (name ≡ n → e.dead ≡ true)
    → IsDead n q
put-IsDead n ps q name e d ec et at_name = (
  omega (arith, ec, d.0),
  ap (λ (t : ℕ → Entry). (t n).dead) et ∙ elim (ℕ_discrete n name) [
    | yes here ↦ ap (λ x. x.dead) (put_self ps.table name e n here) ∙ at_name (sym here)
    | no ne ↦ ap (λ x. x.dead) (put-other ps.table name e n ne) ∙ d.1
  ],
)

fill_slot-IsDead :
    (n : ℕ) (mem : Bool) (ps : Space) (port set : Option ℕ) (rights : Rights) (calls : List Call)
    (a : Alloc)
    → IsDead n ps
    → Allocated mem ps a
    → IsDead n (fill_slot port set rights calls a).after
unfolding fill_slot
fill_slot-IsDead n mem ps port set rights calls _ d (full off all) = d
fill_slot-IsDead n mem ps port set rights calls _ d (granted m q s) =
    let e : Entry = record (q.table m) { port = port; set = set; rights = rights } in
    let was : (q.table n).dead ≡ true = ap (λ x. x.dead) (s.same n d.0) ∙ d.1 in
    put-IsDead n q (record q { table = put q.table m e }) m e (omega (arith, s.wider, d.0), was)
      refl refl (λ at. ap (λ k. (q.table k).dead) at ∙ was)

strip-IsDead :
    (n : ℕ) (ps : Space) (name : ℕ) (right : Rights) → IsDead n ps → IsDead n (strip ps name right)
unfolding strip
strip-IsDead n ps name right d =
    let left : Rights = without (ps.table name).rights right in
    let kept : name ≡ n → (ps.table name).dead ≡ true =
      λ at. ap (λ k. (ps.table k).dead) at ∙ d.1 in
    elim (Bool-cases (is_empty left)) [
      | inl empty ↦
          let e : Entry = record (ps.table name) { rights = left; port = none } in
          simp empty (put-IsDead n ps (give_back ps name e) name e d refl refl kept)
      | inr some_left ↦
          let e : Entry = record (ps.table name) { rights = left } in
          simp some_left
            (put-IsDead n ps (record ps { table = put ps.table name e }) name e d refl refl kept)
    ]

pub drop-IsDead :
    (n : ℕ) (ps : Space) (name : ℕ) → IsDead n ps → name ≢ n → IsDead n (drop ps name).after
unfolding drop
drop-IsDead n ps name d other = elim (Bool-cases (is_reserved name)) [
  | inl res ↦ simp res d
  | inr open_name ↦ elim (Bool-cases (leb ps.capacity name)) [
    | inl out ↦ simp (open_name, out) d
    | inr inside ↦ elim (Bool-cases (ps.table name).dead) [
      | inl dead ↦
          let e : Entry = record (ps.table name) { dead = false } in
          simp (open_name, inside, dead)
            (put-IsDead n ps (give_back ps name e) name e d refl refl (λ at. absurd (other at)))
      | inr lives ↦
          elim (Bool-cases (is_some (ps.table name).port || is_some (ps.table name).set)) [
            | inr nobody ↦ simp (open_name, inside, lives, nobody) d
            | inl named ↦
                simp (open_name, inside, lives, named)
                  (put-IsDead n ps (give_back ps name blank) name blank d refl refl
                    (λ at. absurd (other at)))
          ]
    ]
  ]
]

pub drop_one_right-IsDead :
    (n : ℕ) (ps : Space) (name : ℕ) (right : Rights)
    → IsDead n ps
    → IsDead n (drop_one_right ps name right).after
unfolding drop_one_right
drop_one_right-IsDead n ps name right d = elim (Bool-cases (is_reserved name)) [
  | inl res ↦ simp res d
  | inr open_name ↦ elim (Bool-cases (leb ps.capacity name)) [
    | inl out ↦ simp (open_name, out) d
    | inr inside ↦ elim (Option-cases (ps.table name).port) [
      | inl nobody ↦ simp (open_name, inside, nobody) d
      | inr (q, named) ↦ elim (Bool-cases (is_empty (both (ps.table name).rights right))) [
        | inl none_of ↦ simp (open_name, inside, named, none_of) d
        | inr some_of ↦ simp (open_name, inside, named, some_of) (strip-IsDead n ps name right d)
      ]
    ]
  ]
]

pub unbind_no_deref-IsDead :
    (n : ℕ) (ps : Space) (name : ℕ) (right : Rights)
    → IsDead n ps
    → IsDead n (unbind_no_deref ps name right).after
unfolding unbind_no_deref
unbind_no_deref-IsDead n ps name right d = elim (Bool-cases (is_reserved name)) [
  | inl res ↦ simp res d
  | inr open_name ↦ elim (Bool-cases (leb ps.capacity name || not (is_some (ps.table name).port))) [
    | inl out ↦ simp (open_name, out) d
    | inr inside ↦ elim (Bool-cases (is_empty (both (ps.table name).rights right))) [
      | inl none_of ↦ simp (open_name, inside, none_of) d
      | inr some_of ↦ simp (open_name, inside, some_of) (strip-IsDead n ps name right d)
    ]
  ]
]

pub port_type-IsDead :
    (n : ℕ) (died : ℕ → Bool) (ps : Space) (name : ℕ)
    → IsDead n ps
    → IsDead n (port_type died ps name).1
unfolding port_type
port_type-IsDead n died ps name d = elim (Bool-cases (is_reserved name || leb ps.capacity name)) [
  | inl out ↦ simp out d
  | inr inside ↦ elim (Bool-cases (ps.table name).dead) [
    | inl dead ↦ simp (inside, dead) d
    | inr lives ↦ elim (Bool-cases (is_some (ps.table name).port || is_some (ps.table name).set)) [
      | inr nobody ↦ simp (inside, lives, nobody) d
      | inl named ↦
          elim (Bool-cases (is_some (ps.table name).set || (ps.table name).rights.receive)) [
            | inl keeps ↦ simp (inside, lives, named, keeps) d
            | inr sends ↦ elim (Bool-cases (has_died died (ps.table name).port)) [
              | inr alive ↦ simp (inside, lives, named, sends, alive) d
              | inl gone ↦
                  let e : Entry = buried (ps.table name) in
                  simp (inside, lives, named, sends, gone)
                    (put-IsDead n ps (record ps { table = put ps.table name e }) name e d refl refl
                      (λ at. refl))
            ]
          ]
    ]
  ]
]

pub install-IsDead :
    (n : ℕ) (mem : Bool) (ps : Space) (p : Option ℕ) (r : Rights)
    → IsSpace ps
    → ps.capacity < 2 ^ 31
    → IsDead n ps
    → IsDead n (install mem ps p r).after
unfolding install
install-IsDead n mem ps none r v small d = d
install-IsDead n mem ps (some p) r v small d = elim (Bool-cases (is_empty r)) [
  | inl empty ↦ simp empty d
  | inr some_right ↦ simp some_right (
      fill_slot-IsDead n mem ps (some p) none r _ _ d
        (alloc_slot_locked-Allocated mem ps v.room small))
]

pub install_no_ref-IsDead :
    (n : ℕ) (mem : Bool) (ps : Space) (p : Option ℕ) (r : Rights)
    → IsSpace ps
    → ps.capacity < 2 ^ 31
    → IsDead n ps
    → IsDead n (install_no_ref mem ps p r).after
unfolding install_no_ref
install_no_ref-IsDead n mem ps none r v small d = d
install_no_ref-IsDead n mem ps (some p) r v small d = elim (Bool-cases (is_empty r)) [
  | inl empty ↦ simp empty d
  | inr some_right ↦ simp some_right (
      fill_slot-IsDead n mem ps (some p) none r [] _ d
        (alloc_slot_locked-Allocated mem ps v.room small))
]

pub install_set-IsDead :
    (n : ℕ) (mem : Bool) (ps : Space) (o : Option ℕ)
    → IsSpace ps
    → ps.capacity < 2 ^ 31
    → IsDead n ps
    → IsDead n (install_set mem ps o).after
unfolding install_set
install_set-IsDead n mem ps none v small d = d
install_set-IsDead n mem ps (some s) v small d =
    fill_slot-IsDead n mem ps none (some s) _ _ _ d
      (alloc_slot_locked-Allocated mem ps v.room small)
