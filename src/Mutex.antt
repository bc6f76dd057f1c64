-- ===== src/Mutex.antt =====
-- kern/mutex.c: the sleeping lock. Threads are numbers. The waiters are linked through the threads'
-- th_wait_link, as in the source. The guard is held from the first line of each function to its last,
-- or to the park in mutex_lock, so each such stretch is one step: mutex_lock is `lock_step`, which
-- takes the lock or parks, then `wake_step` and `lock_step` again whenever the thread wakes. A failed
-- KASSERT is none.
pub mod Queue
pub mod Unbind
pub mod Exclusion
mod Tests
use style9_os.Base.{
  ℕ, zero, suc, ◌+◌, ◌-◌, ◌≡◌, Bool, true, false, not, ◌&&◌, Option, none, some, List, [], ◌∷◌,
  ◌++◌, ltb, leb, ◌==◌, if◌then◌else◌, add64, sub64,
}

-- mtx_owner and the two ends of the waiter list; th_wait_link and th_mutex_depth of each thread; and
-- the two counters.
pub record Mutex : Type 0 where
  pub owner : Option ℕ
  pub head : Option ℕ
  pub tail : Option ℕ
  pub link : ℕ → Option ℕ
  pub depth : ℕ → ℕ
  pub slept : ℕ
  pub acquires : ℕ

abbrev pub set_link : (ℕ → Option ℕ) → ℕ → Option ℕ → ℕ → Option ℕ
set_link link x v y = if y == x then v else link y

abbrev pub is_some_of : Option ℕ → ℕ → Bool
is_some_of none x = false
is_some_of (some y) x = y == x

-- the end of the list, after which a waiter goes
unfoldable pub push_after : Mutex → Option ℕ → ℕ → Mutex
push_after m none th = record m { head = some th; tail = some th }
push_after m (some t) th = record m { link = set_link m.link t (some th); tail = some th }

unfoldable pub waiter_push : Mutex → ℕ → Mutex
waiter_push m th = push_after (record m { link = set_link m.link th none }) m.tail th

unfoldable pub pop_first : Mutex → Option ℕ → Option ℕ × Mutex
pop_first m none = (none, m)
pop_first m (some th) = (
  some th,
  record m {
    head = m.link th;
    tail = elim (m.link th) [ none ↦ none | some y ↦ m.tail ];
    link = set_link m.link th none;
  },
)

unfoldable pub waiter_pop : Mutex → Option ℕ × Mutex
waiter_pop m = pop_first m m.head

-- `*pp = v`, where pp is the head's cell or the link cell of `prev`
unfoldable pub store : Mutex → Option ℕ → Option ℕ → Mutex
store m none v = record m { head = v }
store m (some p) v = record m { link = set_link m.link p v }

-- what waiter_unbind does to the thread it finds after `prev`
unfoldable pub detach : Mutex → ℕ → Option ℕ → Mutex
detach m th prev =
    let m' = store m prev (m.link th) in
    record m' {
      tail = if is_some_of m.tail th then prev else m.tail;
      link = set_link m'.link th none;
    }

-- The loop of waiter_unbind, on fuel: at `cur`, whose predecessor is `prev`.
unfoldable pub unbind_from : ℕ → Mutex → ℕ → Option ℕ → Option ℕ → Mutex
unbind_from zero m th prev cur = m
unbind_from (suc n) m th prev none = m
unbind_from (suc n) m th prev (some c) =
    let rest = unbind_from n m th (some c) (m.link c) in if c == th then detach m th prev else rest

unfoldable pub waiter_unbind : ℕ → Mutex → ℕ → Mutex
waiter_unbind fuel m th = unbind_from fuel m th none m.head

unfoldable pub init : Mutex → Mutex
init m = record m { owner = none; head = none; tail = none }

-- thread `me` holds the lock from here on
unfoldable pub take : Mutex → ℕ → Mutex
take m me = record m {
  owner = some me;
  depth = λ t. if t == me then add64 (m.depth t) 1 else m.depth t;
}

-- mutex_lock up to the unlocked guard or the park: whether the lock was taken
unfoldable pub lock_step : Mutex → ℕ → Option (Bool × Mutex)
lock_step m me = elim m.owner [
  | none ↦ let m' = take m me in some (true, record m' { acquires = add64 m.acquires 1 })
  | some o ↦
      if o == me
      then none
      else let m' = waiter_push m me in some (false, record m' { slept = add64 m.slept 1 })
]

-- mutex_lock from the end of a park to the test of its loop
unfoldable pub wake_step : ℕ → Mutex → ℕ → Mutex
wake_step fuel m me = waiter_unbind fuel m me

unfoldable pub trylock : Mutex → ℕ → Bool × Mutex
trylock m me = elim m.owner [ none ↦ (true, take m me) | some o ↦ (false, m) ]

-- mutex_unlock: the thread it wakes, if any
unfoldable pub unlock : Mutex → ℕ → Option (Option ℕ × Mutex)
unlock m me =
    let m' = record m {
      owner = none;
      depth = λ t. if t == me then sub64 (m.depth t) 1 else m.depth t;
    } in
    if not (is_some_of m.owner me)
    then none
    else if m.depth me == 0
    then none
    else some (waiter_pop m')

unfoldable pub held : Mutex → ℕ → Bool
held m me = is_some_of m.owner me
