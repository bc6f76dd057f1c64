-- ===== src/Witness/Tests.antt =====
-- kern/witness.c with two classes: one thread takes lock 20 over lock 10, another the reverse.
use style9_os.Base.{ℕ, ◌≡◌, refl, ◌⊎◌, inl, false, none, some, List, [], ◌∷◌, ◌++◌, arith}
use style9_os.Witness.{
  Lock, Witness, class_find, class_of, check_class, check_one, check_held, set_edge, order, push,
  acquired, released,
}
use style9_os.Witness.Order.{IsOrdered, Holds}
use style9_os.Witness.Acquire.{Acquired, acquired-Acquired, reversed_panics}
use style9_os.Witness.Classes.{Extends-refl}
use style9_os.Witness.Held.{LastOf, released_cases}

abbrev anon : ℕ
anon = 1

abbrev two_classes : Witness
two_classes = record { classes = 10 ∷ 20 ∷ []; edges = λ a b. false }

abbrev lock_at : ℕ → ℕ → Lock
lock_at n ra = record { name = n; ra = ra }

abbrev stack : List Lock
stack = lock_at 10 500 ∷ []

-- the tables once 20 is taken over 10
abbrev after : Witness
after = set_edge two_classes 0 1

taken :
    acquired anon two_classes stack (some 20) 600
    ≡ some (after, lock_at 10 500 ∷ lock_at 20 600 ∷ [])
unfolding acquired class_of class_find order check_held check_one check_class push
taken = refl

acquired-Acquired_example : Acquired two_classes after stack 20
acquired-Acquired_example =
    acquired-Acquired anon two_classes after stack (lock_at 10 500 ∷ lock_at 20 600 ∷ []) (some 20)
      600 taken

empty_order : IsOrdered two_classes
empty_order a b e = refl

reversed_panics_example : acquired anon after (lock_at 20 700 ∷ []) (some 10) 800 ≡ none
reversed_panics_example =
    reversed_panics anon two_classes after after stack (lock_at 10 500 ∷ lock_at 20 600 ∷ [])
      (lock_at 20 700 ∷ []) (some 10) (some 20) 600 800 0 1 (unfold class_find in refl)
      (unfold Holds in inl refl) taken (unfold class_find set_edge in refl) (λ e. omega arith)
      (Extends-refl after) (unfold Holds in inl refl)

released_cases_example :
    ((before : List Lock) × (rest : List Lock) × (l : Lock) × LastOf
        (lock_at 10 500 ∷ lock_at 20 600 ∷ [])
        before
        rest
        l
        10
      × (released anon (lock_at 10 500 ∷ lock_at 20 600 ∷ []) (some 10) ≡ before ++ rest))
    ⊎ ((¬ Holds (lock_at 10 500 ∷ lock_at 20 600 ∷ []) 10)
        × (released anon (lock_at 10 500 ∷ lock_at 20 600 ∷ []) (some 10)
            ≡ (lock_at 10 500 ∷ lock_at 20 600 ∷ [])))
released_cases_example = released_cases anon (lock_at 10 500 ∷ lock_at 20 600 ∷ []) (some 10)
