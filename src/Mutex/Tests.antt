-- ===== src/Mutex/Tests.antt =====
-- kern/mutex.c with two waiters.
use style9_os.Base.{arith, ◌≡◌, refl, none, some, [], ◌∷◌, ◌++◌, ◌==◌, if◌then◌else◌}
use style9_os.Mutex.{Mutex, waiter_push, waiter_pop, waiter_unbind, trylock}
use style9_os.Mutex.Exclusion.{IsExclusive, now, then_step, tries, Later-IsExclusive}
use style9_os.Mutex.Unbind.{waiter_unbind-IsQueue}
use style9_os.Mutex.Queue.{Absent, IsLinked, IsQueue, waiter_push-IsQueue, waiter_pop-IsQueue}

-- thread 3 waits, then thread 4
abbrev contended : Mutex
contended = record {
  owner = some 9;
  head = some 3;
  tail = some 4;
  link = λ t. if t == 3 then some 4 else none;
  depth = λ t. if t == 9 then 1 else 0;
  slept = 2;
  acquires = 1;
}

contended-IsQueue : IsQueue contended (3 ∷ 4 ∷ [])
contended-IsQueue = record {
  linked = unfold IsLinked Absent in (refl, (refl, tt), (refl, tt, refl));
  ends = refl;
}

waiter_push-IsQueue_example : IsQueue (waiter_push contended 5) ((3 ∷ 4 ∷ []) ++ (5 ∷ []))
waiter_push-IsQueue_example =
    waiter_push-IsQueue contended 5 (3 ∷ 4 ∷ []) contended-IsQueue
      (unfold Absent in (refl, (refl, tt)))

waiter_pop-IsQueue_example :
    ((waiter_pop contended).0 ≡ some 3)
    × IsQueue (waiter_pop contended).1 (4 ∷ [])
    × ((waiter_pop contended).1.link 3 ≡ none)
waiter_pop-IsQueue_example = waiter_pop-IsQueue contended 3 (4 ∷ []) contended-IsQueue

waiter_unbind-IsQueue_example : IsQueue (waiter_unbind 2 contended 4) (3 ∷ [])
waiter_unbind-IsQueue_example =
    waiter_unbind-IsQueue contended 4 2 (3 ∷ 4 ∷ []) contended-IsQueue (omega arith)

abbrev idle : Mutex
idle = record {
  owner = none;
  head = none;
  tail = none;
  link = λ t. none;
  depth = λ t. 0;
  slept = 0;
  acquires = 0;
}

idle-IsExclusive : IsExclusive idle
idle-IsExclusive = unfold IsExclusive in λ t. refl

Later-IsExclusive_example : IsExclusive (trylock idle 7).1
Later-IsExclusive_example =
    Later-IsExclusive idle (trylock idle 7).1 idle-IsExclusive
      (then_step idle (trylock idle 7).1 now (tries 7))
