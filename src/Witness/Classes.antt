-- ===== src/Witness/Classes.antt =====
-- class_of: a name keeps its class for good, and two names never share one.
use style9_os.Base.{
  ℕ, suc, ◌≡◌, refl, sym, ◌∙◌, inl, inr, true, false, Option, none, some, List, [], ◌∷◌, ◌++◌, ltb,
  ◌==◌, Bool-cases, Option-cases, arith, length,
}
use mathlib.Core.Option.{none-ne-some}
use style9_os.Witness.{Witness, class_find, class_of, max_classes}

find_here : (c : ℕ) (cs : List ℕ) (n : ℕ) → (c == n) ≡ true → class_find (c ∷ cs) n ≡ some 0
unfolding class_find
find_here c cs n h = rw h refl

find_there :
    (c : ℕ) (cs : List ℕ) (n i : ℕ)
    → (c == n) ≡ false
    → class_find cs n ≡ some i
    → class_find (c ∷ cs) n ≡ some (suc i)
unfolding class_find
find_there c cs n i h e = rw (h, e) refl

find_nowhere :
    (c : ℕ) (cs : List ℕ) (n : ℕ)
    → (c == n) ≡ false
    → class_find cs n ≡ none
    → class_find (c ∷ cs) n ≡ none
unfolding class_find
find_nowhere c cs n h e = rw (h, e) refl

-- A table that only grows at its end keeps every class.
pub class_find-append :
    (cs ds : List ℕ) (n i : ℕ) → class_find cs n ≡ some i → class_find (cs ++ ds) n ≡ some i
class_find-append [] ds n i e = absurd (none-ne-some i (unfold class_find in e))
class_find-append (c ∷ cs) ds n i e = elim (Bool-cases (c == n)) [
  | inl h ↦ find_here c (cs ++ ds) n h ∙ (sym (find_here c cs n h) ∙ e)
  | inr h ↦ elim (Option-cases (class_find cs n)) [
    | inl k ↦ absurd (none-ne-some i (sym (find_nowhere c cs n h k) ∙ e))
    | inr (j, k) ↦
        find_there c (cs ++ ds) n j h (class_find-append cs ds n j k)
        ∙ (sym (find_there c cs n j h k) ∙ e)
  ]
]

-- A name that is not there yet gets the next number.
pub class_find-new :
    (cs : List ℕ) (n : ℕ)
    → class_find cs n ≡ none
    → class_find (cs ++ (n ∷ [])) n ≡ some (length cs)
class_find-new [] n e = find_here n [] n (ground arith)
class_find-new (c ∷ cs) n e = elim (Bool-cases (c == n)) [
  | inl h ↦ absurd (none-ne-some 0 (sym e ∙ find_here c cs n h))
  | inr h ↦ elim (Option-cases (class_find cs n)) [
    | inl k ↦ find_there c (cs ++ (n ∷ [])) n (length cs) h (class_find-new cs n k)
    | inr (j, k) ↦ absurd (none-ne-some (suc j) (sym e ∙ find_there c cs n j h k))
  ]
]

-- `w'` knows all that `w` does.
pub record Extends (w w' : Witness) : Type 0 where
  pub classes : (n i : ℕ) → class_find w.classes n ≡ some i → class_find w'.classes n ≡ some i
  pub edges : (a b : ℕ) → w.edges a b ≡ true → w'.edges a b ≡ true

pub Extends-refl : (w : Witness) → Extends w w
Extends-refl w = record { classes = λ n i e. e; edges = λ a b e. e }

pub Extends-trans : (u v w : Witness) → Extends u v → Extends v w → Extends u w
Extends-trans u v w f g = record {
  classes = λ n i e. g.classes n i (f.classes n i e);
  edges = λ a b e. g.edges a b (f.edges a b e);
}

-- Once a name has a class, class_of answers it and changes nothing.
pub class_of_known :
    (w : Witness) (n i : ℕ) → class_find w.classes n ≡ some i → class_of w n ≡ (some i, w)
unfolding class_of
class_of_known w n i e = rw (class_of, e) refl

pub record ClassOf (w : Witness) (n : ℕ) (r : Option ℕ × Witness) : Type 0 where
  pub extends : Extends w r.1
  pub same_edges : r.1.edges ≡ w.edges
  pub answers : (i : ℕ) → r.0 ≡ some i → class_find r.1.classes n ≡ some i
  pub missing : r.0 ≡ none → class_find r.1.classes n ≡ none

pub class_of-ClassOf : (w : Witness) (n : ℕ) → ClassOf w n (class_of w n)
unfolding class_of
class_of-ClassOf w n = elim (Option-cases (class_find w.classes n)) [
  | inr (i, e) ↦
      rw (class_of, e)
        (record {
          extends = Extends-refl w;
          same_edges = refl;
          answers = λ j k. e ∙ k;
          missing = λ k. absurd (none-ne-some i (sym k));
        })
  | inl e ↦ elim (Bool-cases (ltb (length w.classes) max_classes)) [
    | inl room ↦
        rw (class_of, e, room)
          (record {
            extends = record {
              classes = λ m i k. class_find-append w.classes (n ∷ []) m i k;
              edges = λ a b k. k;
            };
            same_edges = refl;
            answers = λ j k. class_find-new w.classes n e ∙ k;
            missing = λ k. absurd (none-ne-some _ (sym k));
          })
    | inr full ↦
        rw (class_of, e, full)
          (record {
            extends = Extends-refl w;
            same_edges = refl;
            answers = λ j k. absurd (none-ne-some j k);
            missing = λ k. e;
          })
  ]
]
