-- ===== src/Witness/Acquire.antt =====
-- witness_acquired: the order it records never contradicts itself, and an acquisition against a
-- recorded order panics.
use style9_os.Base.{
  ℕ, ◌≡◌, refl, sym, subst, ap, ◌∙◌, ◌≢◌, inl, inr, true, false, Option, none, some, List, [], ◌∷◌,
  ◌==◌, Option-cases, arith,
}
use mathlib.Core.Option.{none-ne-some, some-injective}
use style9_os.Witness.{
  Witness, Lock, class_find, class_of, check_class, check_one, check_held, order, acquired, push,
  name_of,
}
use style9_os.Witness.Classes.{Extends, class_of-ClassOf, class_of_known}
use style9_os.Witness.Order.{
  IsOrdered, Holds, Passed, Passed-trans, check_one-Passed, check_held-HeldPassed,
}

class_of-Passed : (w : Witness) (n : ℕ) → Passed w (class_of w n).1
class_of-Passed w n =
    let c = class_of-ClassOf w n in
    record {
      extends = c.extends;
      ordered = λ o. subst (λ f. (a b : ℕ) → f a b ≡ true → f b a ≡ false) (sym c.same_edges) o;
    }

-- What an acquisition of the lock `name` over `held` leaves if it does not panic.
pub record Acquired (w w' : Witness) (held : List Lock) (name : ℕ) : Type 0 where
  pub extends : Extends w w'
  pub ordered : IsOrdered w → IsOrdered w'
  pub recorded :
      (n i j : ℕ)
      → Holds held n
      → class_find w.classes n ≡ some i
      → class_find w'.classes name ≡ some j
      → i ≢ j
      → w'.edges i j ≡ true

order-Acquired :
    (w v w' : Witness) (c : Option ℕ) (held held' : List Lock) (name ra : ℕ)
    → Passed w v
    → ((i : ℕ) → c ≡ some i → class_find v.classes name ≡ some i)
    → (c ≡ none → class_find v.classes name ≡ none)
    → order v c held name ra ≡ some (w', held')
    → Acquired w w' held name
unfolding order
order-Acquired w v w' none held held' name ra p known unknown e =
    let same : v ≡ w' = ap (λ r. r.0) (some-injective (v, held) (w', held') e) in
    subst (λ u. Acquired w u held name) same
      (record {
        extends = p.extends;
        ordered = p.ordered;
        recorded = λ n i j holds at k ne. absurd (none-ne-some j (sym (unknown refl) ∙ k));
      })
order-Acquired w v w' (some j) held held' name ra p known unknown e =
    elim (Option-cases (check_held v j held)) [
      | inl cycle ↦
          let here : order v (some j) held name ra ≡ none = rw (order, cycle) refl in
          absurd (none-ne-some (w', held') (sym here ∙ e))
      | inr (u, checked) ↦
          let here : order v (some j) held name ra ≡ some (u, push held name ra) =
            rw (order, checked) refl in
          let same : u ≡ w' = ap (λ r. r.0) (some-injective _ (w', held') (sym here ∙ e)) in
          let h = check_held-HeldPassed v w' j held (checked ∙ ap some same) in
          let all = Passed-trans w v w' p h.passed in
          record {
            extends = all.extends;
            ordered = all.ordered;
            recorded = λ n i j' holds at k ne.
                let j-is : j ≡ j' =
                  some-injective j j' (sym (h.passed.extends.classes name j (known j refl)) ∙ k) in
                subst (λ x. w'.edges i x ≡ true) j-is
                  (h.before n i holds (p.extends.classes n i at) (λ q. ne (q ∙ j-is)));
          }
    ]

-- An acquisition that does not panic only adds to what is known, keeps the recorded order free of
-- contradiction, and records that each held lock of another class comes before the new one.
pub acquired-Acquired :
    (anon : ℕ) (w w' : Witness) (held held' : List Lock) (sl_name : Option ℕ) (ra : ℕ)
    → acquired anon w held sl_name ra ≡ some (w', held')
    → Acquired w w' held (name_of anon sl_name)
unfolding acquired
acquired-Acquired anon w w' held held' sl_name ra e =
    let name = name_of anon sl_name in
    let c = class_of-ClassOf w name in
    order-Acquired w (class_of w name).1 w' (class_of w name).0 held held' name ra
      (class_of-Passed w name) c.answers c.missing e

-- One held lock known to come after the new one is enough to panic.
check_one_panics :
    (w : Witness) (j i : ℕ) (h : Lock)
    → class_find w.classes h.name ≡ some i
    → i ≢ j
    → w.edges j i ≡ true
    → check_one w j h ≡ none
unfolding check_one check_class
check_one_panics w j i h at ne e =
    let differ : (i == j) ≡ false = ground arith in
    rw (class_of_known w h.name i at, differ, e) refl

check_held_panics :
    (held : List Lock) (w : Witness) (j i n : ℕ)
    → Holds held n
    → class_find w.classes n ≡ some i
    → i ≢ j
    → w.edges j i ≡ true
    → check_held w j held ≡ none
unfolding check_held Holds
check_held_panics [] w j i n holds at ne e = absurd holds
check_held_panics (h ∷ hs) w j i n holds at ne e = elim (Option-cases (check_one w j h)) [
  | inl cycle ↦ rw (check_held, cycle) refl
  | inr (v, one) ↦ elim holds [
    | inl same ↦ absurd (
        none-ne-some v (
          sym (
            check_one_panics w j i h (subst (λ m. class_find w.classes m ≡ some i) (sym same) at) ne
              e)
          ∙ one))
    | inr deep ↦
        let p = check_one-Passed w v j h one in
        rw (check_held, one)
          (check_held_panics hs v j i n deep (p.extends.classes n i at) ne (p.extends.edges j i e))
  ]
]

acquired_panics :
    (anon : ℕ) (w : Witness) (held : List Lock) (sl_name : Option ℕ) (ra n i j : ℕ)
    → Holds held n
    → class_find w.classes n ≡ some i
    → class_find w.classes (name_of anon sl_name) ≡ some j
    → i ≢ j
    → w.edges j i ≡ true
    → acquired anon w held sl_name ra ≡ none
unfolding acquired order
acquired_panics anon w held sl_name ra n i j holds at new ne e =
    rw (class_of_known w (name_of anon sl_name) j new)
      (rw (order, check_held_panics held w j i n holds at ne e) refl)

-- A thread cannot take two locks of different classes against an order that was recorded: once a thread
-- with `a` on its recorded held stack has taken `b`, both with a class, a thread with `b` on its own
-- recorded held stack panics when it takes `a`, provided that it sees the classes and edges that the
-- first has recorded; it does not matter what else has been recorded by then. A held lock for which the
-- stack of eight had no room is not on it, and of two threads that are in the call at the same time
-- neither need see the other's edges: nothing is said of those.
pub reversed_panics :
    (anon : ℕ) (w w' u : Witness) (held held' held2 : List Lock) (a b : Option ℕ) (ra ra2 i j : ℕ)
    → class_find w.classes (name_of anon a) ≡ some i
    → Holds held (name_of anon a)
    → acquired anon w held b ra ≡ some (w', held')
    → class_find w'.classes (name_of anon b) ≡ some j
    → i ≢ j
    → Extends w' u
    → Holds held2 (name_of anon b)
    → acquired anon u held2 a ra2 ≡ none
reversed_panics anon w w' u held held' held2 a b ra ra2 i j at holds e new ne x holds2 =
    let first = acquired-Acquired anon w w' held held' b ra e in
    acquired_panics anon u held2 a ra2 (name_of anon b) j i holds2 (x.classes _ j new)
      (x.classes _ i (first.extends.classes _ i at)) (λ q. ne (sym q))
      (x.edges i j (first.recorded _ i j holds at new ne))
