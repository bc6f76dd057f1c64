-- ===== src/PortSpace/Preserve.antt =====
-- Every operation on the name table keeps its invariant.
use style9_os.Base.{
  ℕ, ◌^◌, ◌<◌, ◌≡◌, refl, inl, inr, Bool, true, false, not, ◌||◌, Option, none, some, Option-cases,
  List, leb, Bool-cases, arith,
}
use style9_os.PortRights.{Rights, is_empty, without, both}
use style9_os.PortSpace.{
  Entry, Space, Call, is_some, is_reserved, Alloc, fill_slot, install, install_set, install_no_ref,
  drop, strip, drop_one_right, unbind_no_deref, has_died, port_type,
}
use style9_os.PortSpace.Slots.{Allocated, granted, full, alloc_slot_locked-Allocated}
use style9_os.PortSpace.Invariant.{
  IsEntry, IsSpace, filled-IsSpace, kept-IsSpace, freed-IsSpace, bare-IsEntry, dead_bare,
}

module _ (ps : Space) (v : IsSpace ps) where
  fill_slot-IsSpace :
      (mem : Bool) (port set : Option ℕ) (rights : Rights) (calls : List Call) (a : Alloc)
      → (is_some port || is_some set) ≡ true
      → (is_some port ≡ true → (is_some set ≡ false) × (is_empty rights ≡ false))
      → Allocated mem ps a
      → IsSpace (fill_slot port set rights calls a).after
  unfolding fill_slot
  fill_slot-IsSpace mem port set rights calls _ named alone (full off all) = v
  fill_slot-IsSpace mem port set rights calls _ named alone (granted n q s) =
      let e : Entry = record (q.table n) { port = port; set = set; rights = rights } in
      let lives : (q.table n).dead ≡ false = ground (arith, s.free) in
      let ie : IsEntry e = record {
        port_alone = λ p. ((alone p).0, lives, (alone p).1);
        set_alone = λ p. lives;
      } in
      filled-IsSpace ps q n e v s ie (ground (arith, named))

  pub install-IsSpace :
      (mem : Bool) (p : Option ℕ) (r : Rights)
      → ps.capacity < 2 ^ 31
      → IsSpace (install mem ps p r).after
  unfolding install
  install-IsSpace mem none r small = v
  install-IsSpace mem (some p) r small = elim (Bool-cases (is_empty r)) [
    | inl empty ↦ simp empty v
    | inr held ↦ simp held (
        fill_slot-IsSpace mem (some p) none r _ _ refl (λ e. (refl, held))
          (alloc_slot_locked-Allocated mem ps v.room small))
  ]

  pub install_no_ref-IsSpace :
      (mem : Bool) (p : Option ℕ) (r : Rights)
      → ps.capacity < 2 ^ 31
      → IsSpace (install_no_ref mem ps p r).after
  unfolding install_no_ref
  install_no_ref-IsSpace mem none r small = v
  install_no_ref-IsSpace mem (some p) r small = elim (Bool-cases (is_empty r)) [
    | inl empty ↦ simp empty v
    | inr held ↦ simp held (
        fill_slot-IsSpace mem (some p) none r _ _ refl (λ e. (refl, held))
          (alloc_slot_locked-Allocated mem ps v.room small))
  ]

  pub install_set-IsSpace :
      (mem : Bool) (s : Option ℕ) → ps.capacity < 2 ^ 31 → IsSpace (install_set mem ps s).after
  unfolding install_set
  install_set-IsSpace mem none small = v
  install_set-IsSpace mem (some s) small =
      fill_slot-IsSpace mem none (some s) _ _ _ refl (λ e. absurd (cc e))
        (alloc_slot_locked-Allocated mem ps v.room small)

  pub drop-IsSpace : (name : ℕ) → IsSpace (drop ps name).after
  unfolding drop
  drop-IsSpace name = elim (Bool-cases (is_reserved name)) [
    | inl res ↦ simp res v
    | inr open_name ↦ elim (Bool-cases (leb ps.capacity name)) [
      | inl out ↦ simp (open_name, out) v
      | inr inside ↦
          let within : name < ps.capacity = ground (arith, inside) in
          let ie = v.entries name within in
          elim (Bool-cases (ps.table name).dead) [
            | inl dead ↦
                simp (open_name, inside, dead)
                  (let bare = dead_bare (ps.table name) ie dead in
                    freed-IsSpace ps name _ v within (bare-IsEntry _ bare.0 bare.1)
                      (ground (arith, bare)) (ground (arith, dead)))
            | inr lives ↦
                elim (Bool-cases (is_some (ps.table name).port || is_some (ps.table name).set)) [
                  | inr nobody ↦ simp (open_name, inside, lives, nobody) v
                  | inl named ↦
                      simp (open_name, inside, lives, named)
                        (freed-IsSpace ps name _ v within (bare-IsEntry _ refl refl) refl
                          (ground (arith, named)))
                ]
          ]
    ]
  ]

  strip-IsSpace :
      (name : ℕ) (right : Rights)
      → name < ps.capacity
      → is_some (ps.table name).port ≡ true
      → IsSpace (strip ps name right)
  unfolding strip
  strip-IsSpace name right within named =
      let e : Entry = ps.table name in
      let alone = (v.entries name within).port_alone named in
      elim (Bool-cases (is_empty (without e.rights right))) [
        | inl empty ↦ simp empty (
            freed-IsSpace ps name _ v within (bare-IsEntry _ refl alone.0) (ground (arith, alone))
              (ground (arith, named)))
        | inr left ↦ simp left (
            kept-IsSpace ps name _ v within
              (record { port_alone = λ p. (alone.0, alone.1, left); set_alone = λ q. alone.1 })
              (ground (arith, named)) (ground (arith, named)))
      ]

  pub drop_one_right-IsSpace :
      (name : ℕ) (right : Rights) → IsSpace (drop_one_right ps name right).after
  unfolding drop_one_right
  drop_one_right-IsSpace name right = elim (Bool-cases (is_reserved name)) [
    | inl res ↦ simp res v
    | inr open_name ↦ elim (Bool-cases (leb ps.capacity name)) [
      | inl out ↦ simp (open_name, out) v
      | inr inside ↦ elim (Option-cases (ps.table name).port) [
        | inl nobody ↦ simp (open_name, inside, nobody) v
        | inr (p, named) ↦ elim (Bool-cases (is_empty (both (ps.table name).rights right))) [
          | inl none_of ↦ simp (open_name, inside, named, none_of) v
          | inr some_of ↦
              simp (open_name, inside, named, some_of)
                (strip-IsSpace name right (ground (arith, inside)) (ground (arith, named)))
        ]
      ]
    ]
  ]

  pub unbind_no_deref-IsSpace :
      (name : ℕ) (right : Rights) → IsSpace (unbind_no_deref ps name right).after
  unfolding unbind_no_deref
  unbind_no_deref-IsSpace name right = elim (Bool-cases (is_reserved name)) [
    | inl res ↦ simp res v
    | inr open_name ↦
        elim (Bool-cases (leb ps.capacity name || not (is_some (ps.table name).port))) [
          | inl out ↦ simp (open_name, out) v
          | inr inside ↦ elim (Bool-cases (is_empty (both (ps.table name).rights right))) [
            | inl none_of ↦ simp (open_name, inside, none_of) v
            | inr some_of ↦
                simp (open_name, inside, some_of)
                  (strip-IsSpace name right (ground (arith, inside)) (ground (arith, inside)))
          ]
        ]
  ]

  pub port_type-IsSpace : (died : ℕ → Bool) (name : ℕ) → IsSpace (port_type died ps name).1
  unfolding port_type
  port_type-IsSpace died name = elim (Bool-cases (is_reserved name || leb ps.capacity name)) [
    | inl out ↦ simp out v
    | inr inside ↦ elim (Bool-cases (ps.table name).dead) [
      | inl dead ↦ simp (inside, dead) v
      | inr lives ↦
          elim (Bool-cases (is_some (ps.table name).port || is_some (ps.table name).set)) [
            | inr nobody ↦ simp (inside, lives, nobody) v
            | inl named ↦
                elim (Bool-cases (is_some (ps.table name).set || (ps.table name).rights.receive)) [
                  | inl keeps ↦ simp (inside, lives, named, keeps) v
                  | inr sends ↦ elim (Bool-cases (has_died died (ps.table name).port)) [
                    | inr alive ↦ simp (inside, lives, named, sends, alive) v
                    | inl gone ↦
                        simp (inside, lives, named, sends, gone)
                          (kept-IsSpace ps name _ v (ground (arith, inside))
                            (bare-IsEntry _ refl refl) refl (ground (arith, named)))
                  ]
                ]
          ]
    ]
  ]
