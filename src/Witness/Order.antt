-- ===== src/Witness/Order.antt =====
-- The held stack against a new lock: what a check that passes records.
use style9_os.Base.{
  ℕ, ◌≡◌, refl, sym, subst, ap, ◌∙◌, ◌≢◌, ◌⊎◌, inl, inr, Bool, true, false, ◌&&◌, Option, none,
  some, List, [], ◌∷◌, ◌==◌, if◌then◌else◌, Bool-cases, Option-cases, arith,
}
use mathlib.Core.Option.{none-ne-some, some-injective}
use style9_os.Witness.{
  Witness, Lock, class_find, class_of, check_class, check_one, check_held, set_edge,
}
use style9_os.Witness.Classes.{
  Extends, Extends-refl, Extends-trans, class_of-ClassOf, class_of_known,
}

-- No order is recorded both ways.
abbrev pub IsOrdered : Witness → Type 0
IsOrdered w = (a b : ℕ) → w.edges a b ≡ true → w.edges b a ≡ false

-- A lock of that name is on the stack.
unfoldable pub Holds : List Lock → ℕ → Type 0
Holds [] n = ⊥
Holds (h ∷ hs) n = (h.name ≡ n) ⊎ Holds hs n

-- What a check that passes leaves.
pub record Passed (w w' : Witness) : Type 0 where
  pub extends : Extends w w'
  pub ordered : IsOrdered w → IsOrdered w'

pub Passed-refl : (w : Witness) → Passed w w
Passed-refl w = record { extends = Extends-refl w; ordered = λ o. o }

pub Passed-trans : (u v w : Witness) → Passed u v → Passed v w → Passed u w
Passed-trans u v w f g = record {
  extends = Extends-trans u v w f.extends g.extends;
  ordered = λ o. g.ordered (f.ordered o);
}

pair_is : ℕ → ℕ → ℕ → ℕ → Bool
pair_is a b i j = a == i && b == j

pair_is-eq : (f : ℕ → ℕ → Bool) (a b i j : ℕ) → pair_is a b i j ≡ true → f a b ≡ f i j
unfolding pair_is
pair_is-eq f a b i j e =
    let p : a ≡ i = ground (arith, e) in let q : b ≡ j = ground (arith, e) in cc

edge_at :
    (w : Witness) (i j a b : ℕ)
    → (set_edge w i j).edges a b ≡ (if pair_is a b i j then true else w.edges a b)
unfolding set_edge pair_is
edge_at w i j a b = refl

set_edge-IsOrdered :
    (w : Witness) (i j : ℕ) → i ≢ j → w.edges j i ≡ false → IsOrdered w → IsOrdered (set_edge w i j)
set_edge-IsOrdered w i j ne free o a b e = elim (Bool-cases (pair_is b a i j)) [
  | inl back ↦
      let swap : pair_is a b i j ≡ false = unfold pair_is in ground (arith, back) in
      absurd (
        ground (
          arith,
          edge_at w i j a b,
          swap,
          e,
          free,
          pair_is-eq w.edges a b j i (unfold pair_is in ground (arith, back)),
        ))
  | inr other ↦ elim (Bool-cases (pair_is a b i j)) [
    | inl here ↦ edge_at w i j b a ∙ rw other (pair_is-eq (λ x y. w.edges y x) a b i j here ∙ free)
    | inr apart ↦ edge_at w i j b a ∙ rw other (o a b (sym (edge_at w i j a b ∙ rw apart refl) ∙ e))
  ]
]

set_edge-Passed : (w : Witness) (i j : ℕ) → i ≢ j → w.edges j i ≡ false → Passed w (set_edge w i j)
set_edge-Passed w i j ne free = record {
  extends = record {
    classes = λ n k e. unfold set_edge in e;
    edges = λ a b e. edge_at w i j a b ∙ ground (arith, e);
  };
  ordered = set_edge-IsOrdered w i j ne free;
}

-- One held lock: it passes only if its class is the new one, or none, or not yet known to come after
-- the new one; and from then on it is known to come before.
record ClassPassed (w w' : Witness) (new_class : ℕ) (c : Option ℕ) : Type 0 where
  pub passed : Passed w w'
  pub before : (i : ℕ) → c ≡ some i → i ≢ new_class → w'.edges i new_class ≡ true

check_class-ClassPassed :
    (w w' : Witness) (new_class : ℕ) (c : Option ℕ)
    → check_class w new_class c ≡ some w'
    → ClassPassed w w' new_class c
unfolding check_class
check_class-ClassPassed w w' j none e =
    subst (λ v. ClassPassed w v j none) (some-injective w w' e)
      (record { passed = Passed-refl w; before = λ i k. absurd (none-ne-some i k) })
check_class-ClassPassed w w' j (some i) e = elim (Bool-cases (i == j)) [
  | inl same ↦
      let here : check_class w j (some i) ≡ some w = rw (check_class, same) refl in
      subst (λ v. ClassPassed w v j (some i)) (some-injective w w' (sym here ∙ e))
        (record {
          passed = Passed-refl w;
          before = λ k q ne. absurd (ne (sym (some-injective i k q) ∙ ground (arith, same)));
        })
  | inr differ ↦ elim (Bool-cases (w.edges j i)) [
    | inl cycle ↦
        let here : check_class w j (some i) ≡ none = simp (check_class, differ, cycle) in
        absurd (none-ne-some w' (sym here ∙ e))
    | inr free ↦
        let here : check_class w j (some i) ≡ some (set_edge w i j) =
          simp (check_class, differ, free) in
        subst (λ v. ClassPassed w v j (some i)) (some-injective _ w' (sym here ∙ e))
          (record {
            passed = set_edge-Passed w i j (ground (arith, differ)) free;
            before = λ k q ne.
                subst (λ x. (set_edge w i j).edges x j ≡ true) (some-injective i k q)
                  (edge_at w i j i j ∙ unfold pair_is in ground arith);
          })
  ]
]

pub record HeldPassed (w w' : Witness) (new_class : ℕ) (held : List Lock) : Type 0 where
  pub passed : Passed w w'
  pub before :
      (n i : ℕ)
      → Holds held n
      → class_find w.classes n ≡ some i
      → i ≢ new_class
      → w'.edges i new_class ≡ true

pub check_one-Passed : (w w' : Witness) (j : ℕ) (h : Lock) → check_one w j h ≡ some w' → Passed w w'
unfolding check_one
check_one-Passed w w' j h e =
    let known = class_of-ClassOf w h.name in
    let one = check_class-ClassPassed (class_of w h.name).1 w' j (class_of w h.name).0 e in
    record {
      extends = Extends-trans w _ w' known.extends one.passed.extends;
      ordered = λ o.
          one.passed.ordered
            (subst (λ f. (a b : ℕ) → f a b ≡ true → f b a ≡ false) (sym known.same_edges) o);
    }

check_held-cons :
    (w w' w'' : Witness) (j : ℕ) (h : Lock) (hs : List Lock)
    → check_one w j h ≡ some w'
    → HeldPassed w' w'' j hs
    → HeldPassed w w'' j (h ∷ hs)
unfolding Holds check_one
check_held-cons w w' w'' j h hs e rest =
    let first = check_one-Passed w w' j h e in
    let one = check_class-ClassPassed (class_of w h.name).1 w' j (class_of w h.name).0 e in
    record {
      passed = Passed-trans w w' w'' first rest.passed;
      before = λ n i holds at ne. elim holds [
        | inl same ↦
            let c : (class_of w h.name).0 ≡ some i =
              ap (λ r. r.0)
                (class_of_known w h.name i
                  (subst (λ m. class_find w.classes m ≡ some i) (sym same) at)) in
            rest.passed.extends.edges i j (one.before i c ne)
        | inr deep ↦ rest.before n i deep (first.extends.classes n i at) ne
      ];
    }

pub check_held-HeldPassed :
    (w w' : Witness) (j : ℕ) (held : List Lock)
    → check_held w j held ≡ some w'
    → HeldPassed w w' j held
unfolding check_held
check_held-HeldPassed w w' j [] e =
    subst (λ v. HeldPassed w v j []) (some-injective w w' e)
      (record { passed = Passed-refl w; before = λ n i holds. absurd (unfold Holds in holds) })
check_held-HeldPassed w w' j (h ∷ hs) e = elim (Option-cases (check_one w j h)) [
  | inl cycle ↦
      let here : check_held w j (h ∷ hs) ≡ none = rw (check_held, cycle) refl in
      absurd (none-ne-some w' (sym here ∙ e))
  | inr (v, one) ↦
      let here : check_held w j (h ∷ hs) ≡ check_held v j hs = rw (check_held, one) refl in
      check_held-cons w v w' j h hs one (check_held-HeldPassed v w' j hs (sym here ∙ e))
]
