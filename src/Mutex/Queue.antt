-- ===== src/Mutex/Queue.antt =====
-- The waiter list as a queue: pushes go to its end, pops come from its front, and unbinding takes one
-- thread out of the middle.
use style9_os.Base.{
  ℕ, ◌≡◌, refl, sym, subst, ◌∙◌, true, false, Option, none, some, List, [], ◌∷◌, ◌++◌, ◌==◌,
  if◌then◌else◌, arith,
}
use mathlib.Core.Option.{some-injective}
use style9_os.Mutex.{Mutex, set_link, push_after, waiter_push, pop_first, waiter_pop}

-- `x` is not in the queue.
unfoldable pub Absent : ℕ → List ℕ → Type 0
Absent x [] = Unit
Absent x (y ∷ ys) = ((y == x) ≡ false) × Absent x ys

unfoldable pub IsLinked : (ℕ → Option ℕ) → Option ℕ → List ℕ → Type 0
IsLinked link cur [] = cur ≡ none
IsLinked link cur (x ∷ xs) = (cur ≡ some x) × Absent x xs × IsLinked link (link x) xs

abbrev pub last_or : Option ℕ → List ℕ → Option ℕ
last_or prev [] = prev
last_or prev (x ∷ xs) = last_or (some x) xs

-- The list holds these threads, in this order and each once.
pub record IsQueue (m : Mutex) (q : List ℕ) : Type 0 where
  pub linked : IsLinked m.link m.head q
  pub ends : m.tail ≡ last_or none q

pub IsLinked-set :
    (link : ℕ → Option ℕ) (x : ℕ) (v cur : Option ℕ) (q : List ℕ)
    → Absent x q
    → IsLinked link cur q
    → IsLinked (set_link link x v) cur q
unfolding IsLinked Absent
IsLinked-set link x v cur [] a l = l
IsLinked-set link x v cur (y ∷ ys) a l =
    (l.0, l.1, rw a.0 (IsLinked-set link x v (link y) ys a.1 l.2))

-- erase the first, and only, occurrence
abbrev pub without : ℕ → List ℕ → List ℕ
without x [] = []
without x (y ∷ ys) = if y == x then ys else y ∷ without x ys

Absent-append : (x y : ℕ) (q : List ℕ) → Absent x q → (y == x) ≡ false → Absent x (q ++ (y ∷ []))
unfolding Absent
Absent-append x y [] a e = (e, tt)
Absent-append x y (z ∷ zs) a e = (a.0, Absent-append x y zs a.1 e)

pub Absent-last :
    (x y t : ℕ) (q : List ℕ) → Absent x (y ∷ q) → last_or (some y) q ≡ some t → (t == x) ≡ false
unfolding Absent
Absent-last x y t [] a e = subst (λ z. (z == x) ≡ false) (some-injective y t e) a.0
Absent-last x y t (z ∷ q) a e = Absent-last x z t q a.1 e

-- linking `th` behind the last of a queue
IsLinked-push :
    (link : ℕ → Option ℕ) (th t : ℕ) (cur : Option ℕ) (x : ℕ) (q : List ℕ)
    → IsLinked link cur (x ∷ q)
    → Absent th (x ∷ q)
    → last_or (some x) q ≡ some t
    → IsLinked (set_link (set_link link th none) t (some th)) cur (x ∷ (q ++ (th ∷ [])))
unfolding IsLinked Absent
IsLinked-push link th t cur x [] l a e =
    let here : (x == t) ≡ true = ground (arith, some-injective x t e) in
    let other : (th == t) ≡ false = ground (arith, some-injective x t e, a.0) in
    let self : (th == th) ≡ true = ground arith in
    (l.0, (ground (arith, a.0), tt), (rw here refl, tt, rw (other, self) refl))
IsLinked-push link th t cur x (y ∷ q) l a e =
    let other : (t == x) ≡ false = Absent-last x y t q l.1 e in
    let other' : (x == t) ≡ false = ground (arith, other) in
    let rest = IsLinked-push link th t (link x) y q l.2 a.1 e in
    (
      l.0,
      (l.1.0, Absent-append x th q l.1.1 (ground (arith, a.0))),
      (rw (other', a.0) l.2.0, rest.1, rest.2),
    )

last_or-append : (o : Option ℕ) (q : List ℕ) (x : ℕ) → last_or o (q ++ (x ∷ [])) ≡ some x
last_or-append o [] x = refl
last_or-append o (y ∷ q) x = last_or-append (some y) q x

pub last_or-some : (x : ℕ) (q : List ℕ) → (t : ℕ) × (last_or (some x) q ≡ some t)
last_or-some x [] = (x, refl)
last_or-some x (y ∷ q) = last_or-some y q

-- On a list that holds the threads of a queue in order, waiter_push puts a thread that is not among
-- them at the end.
pub waiter_push-IsQueue :
    (m : Mutex) (th : ℕ) (q : List ℕ)
    → IsQueue m q
    → Absent th q
    → IsQueue (waiter_push m th) (q ++ (th ∷ []))
unfolding waiter_push push_after IsLinked
waiter_push-IsQueue m th [] v a =
    simp v.ends (record { linked = (refl, unfold Absent in tt, ground arith); ends = refl })
waiter_push-IsQueue m th (x ∷ q) v a =
    let (t, e) = last_or-some x q in
    simp (v.ends ∙ e) (record {
      linked = IsLinked-push m.link th t m.head x q v.linked a e;
      ends = sym (last_or-append (some x) q th);
    })

-- From a list that holds the threads of a queue that is not empty, waiter_pop takes the first,
-- which is then linked to no other, and leaves the rest.
pub waiter_pop-IsQueue :
    (m : Mutex) (x : ℕ) (q : List ℕ)
    → IsQueue m (x ∷ q)
    → ((waiter_pop m).0 ≡ some x) × IsQueue (waiter_pop m).1 q × ((waiter_pop m).1.link x ≡ none)
unfolding waiter_pop pop_first IsLinked Absent
waiter_pop-IsQueue m x [] v =
    simp (v.linked.0, v.linked.2) (refl, record { linked = refl; ends = refl }, ground arith)
waiter_pop-IsQueue m x (y ∷ q) v =
    simp (v.linked.0, v.linked.2.0)
      (
        refl,
        record {
          linked = (
            refl,
            v.linked.2.1,
            subst (λ l. l) refl
                (rw v.linked.1.0
                  (IsLinked-set m.link x none (m.link y) q v.linked.1.1 v.linked.2.2)),
          );
          ends = v.ends;
        },
        ground arith,
      )
