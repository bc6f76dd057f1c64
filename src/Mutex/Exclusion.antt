-- ===== src/Mutex/Exclusion.antt =====
-- Mutual exclusion: whatever the threads do, the lock has one owner, and that thread alone counts it.
use style9_os.Base.{
  ℕ, zero, suc, ◌≡◌, refl, sym, subst, ap, ◌∙◌, inl, inr, Bool, true, false, Option, none, some,
  ◌==◌, if◌then◌else◌, Bool-cases, Option-cases, arith, add64, sub64,
}
use mathlib.Core.Option.{some-injective, none-ne-some}
use style9_os.Mutex.{
  Mutex, set_link, is_some_of, push_after, waiter_push, pop_first, waiter_pop, store, detach,
  unbind_from, waiter_unbind, take, lock_step, wake_step, trylock, unlock,
}

-- The one thread that counts the lock in its th_mutex_depth, where it holds no other, is its owner.
unfoldable pub IsExclusive : Mutex → Type 0
IsExclusive m = (t : ℕ) → m.depth t ≡ (if is_some_of m.owner t then 1 else 0)

-- what one thread does, with the guard held
pub data Step (m : Mutex) : Mutex → Type 0 where
  locks : (me : ℕ) (taken : Bool) (r : Mutex) → lock_step m me ≡ some (taken, r) → Step m r
  wakes : (me fuel : ℕ) → Step m (wake_step fuel m me)
  tries : (me : ℕ) → Step m (trylock m me).1
  unlocks : (me : ℕ) (woken : Option ℕ) (r : Mutex) → unlock m me ≡ some (woken, r) → Step m r

-- `r` has the owner and the counts of `m`.
record SameOwner (m r : Mutex) : Type 0 where
  owner : r.owner ≡ m.owner
  depth : r.depth ≡ m.depth

SameOwner-IsExclusive : (m r : Mutex) → SameOwner m r → IsExclusive m → IsExclusive r
unfolding IsExclusive
SameOwner-IsExclusive m r s x t =
    ap (λ d. d t) s.depth ∙ (x t ∙ ap (λ o. if is_some_of o t then 1 else 0) (sym s.owner))

detach-SameOwner : (m : Mutex) (th : ℕ) (prev : Option ℕ) → SameOwner m (detach m th prev)
unfolding detach store
detach-SameOwner m th none = record { owner = refl; depth = refl }
detach-SameOwner m th (some p) = record { owner = refl; depth = refl }

unbind_from-SameOwner :
    (n : ℕ) (m : Mutex) (th : ℕ) (prev cur : Option ℕ) → SameOwner m (unbind_from n m th prev cur)
unfolding unbind_from
unbind_from-SameOwner zero m th prev cur = record { owner = refl; depth = refl }
unbind_from-SameOwner (suc n) m th prev none = record { owner = refl; depth = refl }
unbind_from-SameOwner (suc n) m th prev (some c) = elim (Bool-cases (c == th)) [
  | inl h ↦ rw h (detach-SameOwner m th prev)
  | inr h ↦ rw h (unbind_from-SameOwner n m th (some c) (m.link c))
]

push-SameOwner : (m : Mutex) (tail : Option ℕ) (th : ℕ) → SameOwner m (push_after m tail th)
unfolding push_after
push-SameOwner m none th = record { owner = refl; depth = refl }
push-SameOwner m (some t) th = record { owner = refl; depth = refl }

pop-SameOwner : (m : Mutex) (head : Option ℕ) → SameOwner m (pop_first m head).1
unfolding pop_first
pop-SameOwner m none = record { owner = refl; depth = refl }
pop-SameOwner m (some t) = record { owner = refl; depth = refl }

take-IsExclusive : (m : Mutex) (me : ℕ) → m.owner ≡ none → IsExclusive m → IsExclusive (take m me)
unfolding IsExclusive take
take-IsExclusive m me free x t =
    let before : m.depth t ≡ 0 = x t ∙ ap (λ o. if is_some_of o t then 1 else 0) free in
    ground (arith, before)

lock-IsExclusive :
    (m r : Mutex) (me : ℕ) (taken : Bool)
    → lock_step m me ≡ some (taken, r)
    → IsExclusive m
    → IsExclusive r
unfolding lock_step waiter_push
lock-IsExclusive m r me taken e x = elim (Option-cases m.owner) [
  | inl free ↦
      let held : Mutex = record (take m me) { acquires = add64 m.acquires 1 } in
      let here : lock_step m me ≡ some (true, held) = simp (lock_step, free) in
      subst IsExclusive (ap (λ p. p.1) (some-injective (true, held) (taken, r) (sym here ∙ e))) (
        SameOwner-IsExclusive (take m me) held (record { owner = refl; depth = refl })
          (take-IsExclusive m me free x))
  | inr (o, owned) ↦ elim (Bool-cases (o == me)) [
    | inl again ↦
        let here : lock_step m me ≡ none = simp (lock_step, owned, again) in
        absurd (none-ne-some (taken, r) (sym here ∙ e))
    | inr other ↦
        let queued : Mutex = record (waiter_push m me) { slept = add64 m.slept 1 } in
        let here : lock_step m me ≡ some (false, queued) = simp (lock_step, owned, other) in
        let s = push-SameOwner (record m { link = set_link m.link me none }) m.tail me in
        subst IsExclusive (ap (λ p. p.1) (some-injective (false, queued) (taken, r) (sym here ∙ e)))
          (SameOwner-IsExclusive m queued (record { owner = s.owner; depth = s.depth }) x)
  ]
]

try-IsExclusive : (m : Mutex) (me : ℕ) → IsExclusive m → IsExclusive (trylock m me).1
unfolding trylock
try-IsExclusive m me x = elim (Option-cases m.owner) [
  | inl free ↦ rw (trylock, free) (take-IsExclusive m me free x)
  | inr (o, owned) ↦ rw (trylock, owned) x
]

-- the lock given back
let_go : Mutex → ℕ → Mutex
let_go m me = record m {
  owner = none;
  depth = λ t. if t == me then sub64 (m.depth t) 1 else m.depth t;
}

let_go-IsExclusive :
    (m : Mutex) (me : ℕ) → is_some_of m.owner me ≡ true → IsExclusive m → IsExclusive (let_go m me)
unfolding IsExclusive let_go
let_go-IsExclusive m me mine x t = elim (Option-cases m.owner) [
  | inl free ↦ absurd (ground (arith, mine, ap (λ o. is_some_of o me) free))
  | inr (o, owned) ↦
      let me_is : (o == me) ≡ true = ap (λ p. is_some_of p me) (sym owned) ∙ mine in
      let before : m.depth t ≡ (if o == t then 1 else 0) =
        x t ∙ ap (λ p. if is_some_of p t then 1 else 0) owned in
      ground (arith, me_is, before)
]

unlock-IsExclusive :
    (m r : Mutex) (me : ℕ) (woken : Option ℕ)
    → unlock m me ≡ some (woken, r)
    → IsExclusive m
    → IsExclusive r
unfolding unlock let_go waiter_pop
unlock-IsExclusive m r me woken e x = elim (Bool-cases (is_some_of m.owner me)) [
  | inr theirs ↦
      let here : unlock m me ≡ none = simp theirs in absurd (none-ne-some (woken, r) (sym here ∙ e))
  | inl mine ↦ elim (Bool-cases (m.depth me == 0)) [
    | inl zero_depth ↦
        let here : unlock m me ≡ none = simp (mine, zero_depth) in
        absurd (none-ne-some (woken, r) (sym here ∙ e))
    | inr counted ↦
        let here : unlock m me ≡ some (waiter_pop (let_go m me)) = simp (mine, counted) in
        subst IsExclusive (ap (λ p. p.1) (some-injective _ (woken, r) (sym here ∙ e))) (
          SameOwner-IsExclusive (let_go m me) _ (pop-SameOwner (let_go m me) m.head)
            (let_go-IsExclusive m me mine x))
  ]
]

-- A lock some steps later.
pub data Later (m : Mutex) : Mutex → Type 0 where
  now : Later m m
  then_step : (q r : Mutex) → Later m q → Step q r → Later m r

Step-IsExclusive : (m r : Mutex) → Step m r → IsExclusive m → IsExclusive r
unfolding wake_step waiter_unbind
Step-IsExclusive m _ (locks me taken r e) x = lock-IsExclusive m r me taken e x
Step-IsExclusive m _ (wakes me fuel) x =
    SameOwner-IsExclusive m _ (unbind_from-SameOwner fuel m me none m.head) x
Step-IsExclusive m _ (tries me) x = try-IsExclusive m me x
Step-IsExclusive m _ (unlocks me woken r e) x = unlock-IsExclusive m r me woken e x

-- If the owner of a lock, and no other thread, counts it, once, then this is so after any sequence
-- of lock, wake, trylock and unlock steps of any threads.
pub Later-IsExclusive : (m r : Mutex) → IsExclusive m → Later m r → IsExclusive r
Later-IsExclusive m _ x now = x
Later-IsExclusive m _ x (then_step q r before s) =
    Step-IsExclusive q r s (Later-IsExclusive m q x before)
