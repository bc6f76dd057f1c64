-- ===== src/Mutex/Unbind.antt =====
-- waiter_unbind: one thread leaves the waiter list, wherever it stands.
use style9_os.Base.{
  ℕ, zero, suc, ◌≤◌, ◌≡◌, refl, sym, subst, ap, ◌∙◌, inl, inr, true, false, Option, none, some,
  List, [], ◌∷◌, ◌==◌, if◌then◌else◌, Bool-cases, arith, length,
}
use mathlib.Core.Option.{some-injective, none-ne-some}
use style9_os.Mutex.{Mutex, set_link, is_some_of, store, detach, unbind_from, waiter_unbind}
use style9_os.Mutex.Queue.{
  Absent, IsLinked, IsLinked-set, Absent-last, IsQueue, last_or, last_or-some, without,
}

-- what the cell before the position holds: the head, or the link of `prev`
unfoldable pub cell : Mutex → Option ℕ → Option ℕ
cell m none = m.head
cell m (some p) = m.link p

-- `prev` is not further down the list.
unfoldable pub Before : Option ℕ → List ℕ → Type 0
Before none q = Unit
Before (some p) q = Absent p q

-- What the loop leaves, started before the part `q` of the list.
record Unbound (m r : Mutex) (th : ℕ) (prev : Option ℕ) (q : List ℕ) : Type 0 where
  linked : IsLinked r.link (cell r prev) (without th q)
  ends : r.tail ≡ last_or prev (without th q)
  elsewhere : (y : ℕ) → Absent y q → ¬ (prev ≡ some y) → r.link y ≡ m.link y
  head_kept : ¬ (prev ≡ none) → r.head ≡ m.head

same_thread : (th : ℕ) → (th == th) ≡ true
same_thread th = ground arith

without_first : (th : ℕ) (xs : List ℕ) → without th (th ∷ xs) ≡ xs
without_first th xs = rw (same_thread th) refl

-- the tail moves back only when the last waiter leaves
tail_after :
    (th : ℕ) (prev : Option ℕ) (xs : List ℕ)
    → Absent th xs
    → (if is_some_of (last_or (some th) xs) th then prev else last_or (some th) xs)
      ≡ last_or prev xs
tail_after th prev [] a = rw (same_thread th) refl
tail_after th prev (y ∷ ys) a =
    let (t, e) = last_or-some y ys in rw (e, Absent-last th y t ys a e) refl

detach-Unbound :
    (m : Mutex) (th : ℕ) (prev : Option ℕ) (xs : List ℕ)
    → Absent th xs
    → Before prev (th ∷ xs)
    → IsLinked m.link (m.link th) xs
    → m.tail ≡ last_or (some th) xs
    → Unbound m (detach m th prev) th prev (th ∷ xs)
unfolding detach store cell Before Absent
detach-Unbound m th none xs a b l e = record {
  linked = rw (without_first th xs) (IsLinked-set m.link th none (m.link th) xs a l);
  ends = rw (without_first th xs) (simp e (tail_after th none xs a));
  elsewhere = λ y ay ne. elsewhere_at y ay;
  head_kept = λ ne. absurd (ne refl);
}
  where
    elsewhere_at : (y : ℕ) → Absent y (th ∷ xs) → set_link m.link th none y ≡ m.link y
    elsewhere_at y ay = let apart : (y == th) ≡ false = ground (arith, ay.0) in rw apart refl
detach-Unbound m th (some p) xs a b l e = record {
  linked =
      rw (without_first th xs, here)
        (IsLinked-set _ th none (m.link th) xs a
          (IsLinked-set m.link p (m.link th) (m.link th) xs b.1 l));
  ends = rw (without_first th xs) (simp e (tail_after th (some p) xs a));
  elsewhere = λ y ay ne. elsewhere_at y ay ne;
  head_kept = λ ne. refl;
}
  where
    here : set_link (set_link m.link p (m.link th)) th none p ≡ m.link th
    here = let apart : (p == th) ≡ false = ground (arith, b.0) in rw (apart, same_thread p) refl

    elsewhere_at :
        (y : ℕ)
        → Absent y (th ∷ xs)
        → ¬ (some p ≡ some y)
        → set_link (set_link m.link p (m.link th)) th none y ≡ m.link y
    elsewhere_at y ay ne =
        let apart : (y == th) ≡ false = ground (arith, ay.0) in
        let other : (y == p) ≡ false = elim (Bool-cases (y == p)) [
          | inr h ↦ h
          | inl h ↦ absurd (ne (ap some (ground (arith, h))))
        ] in
        rw (apart, other) refl

Absent-without : (x th : ℕ) (q : List ℕ) → Absent x q → Absent x (without th q)
unfolding Absent
Absent-without x th [] a = a
Absent-without x th (y ∷ ys) a = elim (Bool-cases (y == th)) [
  | inl h ↦ rw h a.1
  | inr h ↦ rw h (a.0, Absent-without x th ys a.1)
]

unbind_nil : (n : ℕ) (m : Mutex) (th : ℕ) (prev : Option ℕ) → unbind_from n m th prev none ≡ m
unfolding unbind_from
unbind_nil zero m th prev = refl
unbind_nil (suc n) m th prev = refl

-- past a waiter that stays
kept-Unbound :
    (m r : Mutex) (th x : ℕ) (prev : Option ℕ) (xs : List ℕ)
    → (x == th) ≡ false
    → cell m prev ≡ some x
    → Before prev (x ∷ xs)
    → Absent x xs
    → Unbound m r th (some x) xs
    → Unbound m r th prev (x ∷ xs)
unfolding cell Before Absent IsLinked
kept-Unbound m r th x prev xs stays at b a u = record {
  linked = rw stays (at_cell prev at b, Absent-without x th xs a, u.linked);
  ends = rw stays u.ends;
  elsewhere = λ y ay ne. u.elsewhere y ay.1 (λ e. ground (arith, some-injective x y e, ay.0));
  head_kept = λ ne. u.head_kept (λ e. none-ne-some x (sym e));
}
  where
    at_cell : (prev : Option ℕ) → cell m prev ≡ some x → Before prev (x ∷ xs) → cell r prev ≡ some x
    at_cell none at b = u.head_kept (λ e. none-ne-some x (sym e)) ∙ at
    at_cell (some p) at b = u.elsewhere p b.1 (λ e. ground (arith, some-injective x p e, b.0)) ∙ at

unbind_from-Unbound :
    (q : List ℕ) (n : ℕ) (m : Mutex) (th : ℕ) (prev cur : Option ℕ)
    → length q ≤ n
    → cell m prev ≡ cur
    → Before prev q
    → IsLinked m.link cur q
    → m.tail ≡ last_or prev q
    → Unbound m (unbind_from n m th prev cur) th prev q
unfolding unbind_from IsLinked cell Before
unbind_from-Unbound [] n m th prev cur fuel at b l e =
    rw (l, unbind_nil n m th prev)
      (record { linked = at ∙ l; ends = e; elsewhere = λ y ay ne. refl; head_kept = λ ne. refl })
unbind_from-Unbound (x ∷ xs) zero m th prev cur fuel at b l e = absurd (omega arith)
unbind_from-Unbound (x ∷ xs) (suc n) m th prev cur fuel at b l e = elim (Bool-cases (x == th)) [
  | inl leaves ↦
      let same : th ≡ x = ground (arith, leaves) in
      rw (l.0, leaves)
        (subst (λ z. Unbound m (detach m th prev) th prev (z ∷ xs)) same
          (detach-Unbound m th prev xs (subst (λ z. Absent z xs) (sym same) l.1)
            (subst (λ z. Before prev (z ∷ xs)) (sym same) b)
            (subst (λ z. IsLinked m.link (m.link z) xs) (sym same) l.2)
            (e ∙ ap (λ z. last_or (some z) xs) (sym same))))
  | inr stays ↦
      rw (l.0, stays)
        (kept-Unbound m _ th x prev xs stays (at ∙ l.0) b l.1
          (unbind_from-Unbound xs n m th (some x) (m.link x) (omega arith) refl l.1 l.2 e))
]

-- On a list that holds the threads of a queue, and given a round for each of them, waiter_unbind
-- takes one thread off, wherever it stands, and keeps the others in order; a list that does not
-- hold it stays as it is.
pub waiter_unbind-IsQueue :
    (m : Mutex) (th fuel : ℕ) (q : List ℕ)
    → IsQueue m q
    → length q ≤ fuel
    → IsQueue (waiter_unbind fuel m th) (without th q)
unfolding waiter_unbind cell Before
waiter_unbind-IsQueue m th fuel q v h =
    let u = unbind_from-Unbound q fuel m th none m.head h refl tt v.linked v.ends in
    record { linked = u.linked; ends = u.ends }
