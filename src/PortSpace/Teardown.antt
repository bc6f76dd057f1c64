-- ===== src/PortSpace/Teardown.antt =====
-- port_space_destroy: the references that it gives back, against those that the names hold.
use style9_os.Base.{
  ℕ, zero, suc, true, false, ◌==◌, inl, inr, Option-cases, Bool-cases, ◌+◌, ◌++◌, ◌-◌, ◌≡◌, refl,
  ap, Bool, List, [], ◌∷◌, arith, count, bit_value,
}
use style9_os.PortSpace.{
  Entry, Space, Call, is_free, port_ref, port_deref, set_ref, set_deref, notify_send_once,
  drop_calls,
}
use style9_os.PortSpace.Reachable.{Reach, Reach-IsSpace}
use style9_os.PortSpace.Balance.{
  Kind, sending_once, is_port, holds, held, given_back, free_holds, drop_calls-given_back,
}
use style9_os.PortSpace.{destroy_from, destroy}

count_suc : (f : ℕ → Bool) (n : ℕ) → count f (suc n) ≡ count f n + bit_value (f n)
unfolding count
count_suc f n = refl

count_zero : (f : ℕ → Bool) → count f 0 ≡ 0
unfolding count
count_zero f = refl

given_back-append :
    (cs ds : List Call) (p : ℕ) (k : Kind)
    → given_back (cs ++ ds) p k ≡ given_back cs p k + given_back ds p k
unfolding given_back
given_back-append [] ds p k = omega arith
given_back-append (port_ref q r ∷ cs) ds p k = given_back-append cs ds p k
given_back-append (port_deref q r ∷ cs) ds p k = omega (arith, given_back-append cs ds p k)
given_back-append (set_ref s ∷ cs) ds p k = given_back-append cs ds p k
given_back-append (set_deref s ∷ cs) ds p k = given_back-append cs ds p k
given_back-append (notify_send_once q ∷ cs) ds p k = given_back-append cs ds p k

destroy_from-count :
    (left : ℕ) (table : ℕ → Entry) (i hi : ℕ) (p : ℕ) (k : Kind)
    → i + left ≡ hi
    → count (λ j. holds (table j) p k) i + given_back (destroy_from left table i) p k
      ≡ count (λ j. holds (table j) p k) hi
unfolding destroy_from given_back
destroy_from-count zero table i hi p k e =
    let same : i ≡ hi = omega arith in
    let counts = ap (count (λ j. holds (table j) p k)) same in omega (arith, counts)
destroy_from-count (suc left) table i hi p k e =
    let rest = destroy_from-count left table (suc i) hi p k (omega arith) in
    let calls = drop_calls-given_back (table i) p k in
    let split = given_back-append (drop_calls (table i)) (destroy_from left table (suc i)) p k in
    let step = count_suc (λ j. holds (table j) p k) i in omega (arith, rest, calls.0, split, step)

-- The names of the space that hold set `s`.
abbrev pub held_sets : Space → ℕ → ℕ
held_sets ps s = count (λ i. is_port (ps.table i).set s) ps.capacity

-- The references to set `s` that the calls give back.
unfoldable pub sets_given_back : List Call → ℕ → ℕ
sets_given_back [] s = 0
sets_given_back (port_ref q r ∷ cs) s = sets_given_back cs s
sets_given_back (port_deref q r ∷ cs) s = sets_given_back cs s
sets_given_back (set_ref t ∷ cs) s = sets_given_back cs s
sets_given_back (set_deref t ∷ cs) s = bit_value (t == s) + sets_given_back cs s
sets_given_back (notify_send_once q ∷ cs) s = sets_given_back cs s

-- The send-once notifications that the calls send to port `p`, and the names that hold such a right.
unfoldable pub notified : List Call → ℕ → ℕ
notified [] p = 0
notified (port_ref q r ∷ cs) p = notified cs p
notified (port_deref q r ∷ cs) p = notified cs p
notified (set_ref t ∷ cs) p = notified cs p
notified (set_deref t ∷ cs) p = notified cs p
notified (notify_send_once q ∷ cs) p = bit_value (q == p) + notified cs p

sets_given_back-append :
    (cs ds : List Call) (s : ℕ)
    → sets_given_back (cs ++ ds) s ≡ sets_given_back cs s + sets_given_back ds s
unfolding sets_given_back
sets_given_back-append [] ds s = omega arith
sets_given_back-append (port_ref q r ∷ cs) ds s = sets_given_back-append cs ds s
sets_given_back-append (port_deref q r ∷ cs) ds s = sets_given_back-append cs ds s
sets_given_back-append (set_ref t ∷ cs) ds s = sets_given_back-append cs ds s
sets_given_back-append (set_deref t ∷ cs) ds s = omega (arith, sets_given_back-append cs ds s)
sets_given_back-append (notify_send_once q ∷ cs) ds s = sets_given_back-append cs ds s

notified-append :
    (cs ds : List Call) (p : ℕ) → notified (cs ++ ds) p ≡ notified cs p + notified ds p
unfolding notified
notified-append [] ds p = omega arith
notified-append (port_ref q r ∷ cs) ds p = notified-append cs ds p
notified-append (port_deref q r ∷ cs) ds p = notified-append cs ds p
notified-append (set_ref t ∷ cs) ds p = notified-append cs ds p
notified-append (set_deref t ∷ cs) ds p = notified-append cs ds p
notified-append (notify_send_once q ∷ cs) ds p = omega (arith, notified-append cs ds p)

drop_calls-sets :
    (e : Entry) (s p : ℕ)
    → (sets_given_back (drop_calls e) s ≡ bit_value (is_port e.set s))
      × (notified (drop_calls e) p ≡ bit_value (holds e p sending_once))
unfolding sets_given_back notified
drop_calls-sets e s p = elim (Option-cases e.port) [
  | inl nobody ↦ elim (Option-cases e.set) [
    | inl no_set ↦ simp (nobody, no_set) (refl, refl)
    | inr (t, a_set) ↦ simp (nobody, a_set) (omega arith, refl)
  ]
  | inr (q, named) ↦ elim (Bool-cases e.rights.send_once) [
    | inl once ↦ elim (Option-cases e.set) [
      | inl no_set ↦ simp (named, once, no_set) (refl, ground arith)
      | inr (t, a_set) ↦ simp (named, once, a_set) (omega arith, ground arith)
    ]
    | inr not_once ↦ elim (Option-cases e.set) [
      | inl no_set ↦ simp (named, not_once, no_set) (refl, ground arith)
      | inr (t, a_set) ↦ simp (named, not_once, a_set) (omega arith, ground arith)
    ]
  ]
]

destroy_from-sets :
    (left : ℕ) (table : ℕ → Entry) (i hi : ℕ) (s p : ℕ)
    → i + left ≡ hi
    → (count (λ j. is_port (table j).set s) i + sets_given_back (destroy_from left table i) s
        ≡ count (λ j. is_port (table j).set s) hi)
      × (count (λ j. holds (table j) p sending_once) i + notified (destroy_from left table i) p
          ≡ count (λ j. holds (table j) p sending_once) hi)
unfolding destroy_from sets_given_back notified
destroy_from-sets zero table i hi s p e =
    let same : i ≡ hi = omega arith in
    let sets = ap (count (λ j. is_port (table j).set s)) same in
    let ports = ap (count (λ j. holds (table j) p sending_once)) same in
    (omega (arith, sets), omega (arith, ports))
destroy_from-sets (suc left) table i hi s p e =
    let rest = destroy_from-sets left table (suc i) hi s p (omega arith) in
    let calls = drop_calls-sets (table i) s p in
    let later = destroy_from left table (suc i) in
    let sets = sets_given_back-append (drop_calls (table i)) later s in
    let ports = notified-append (drop_calls (table i)) later p in
    let set_step = count_suc (λ j. is_port (table j).set s) i in
    let port_step = count_suc (λ j. holds (table j) p sending_once) i in
    (
      omega (arith, rest.0, calls.0, sets, set_step),
      omega (arith, rest.1, calls.1, ports, port_step),
    )

free_set : (e : Entry) (s : ℕ) → is_free e ≡ true → is_port e.set s ≡ false
free_set e s f = elim (Option-cases e.set) [
  | inl nobody ↦ simp nobody
  | inr (q, named) ↦ absurd (ground (arith, named, f))
]

-- On a table that the operations have reached, port_space_destroy gives back to each port, for each
-- kind of right, one reference for each name that holds one; to each set one reference for each name
-- that holds it; and it notifies each port once for each name that holds a send-once right to it.
pub destroy-given_back :
    (ps : Space) (p s : ℕ) (k : Kind)
    → Reach ps
    → (given_back (destroy ps) p k ≡ held ps p k)
      × (sets_given_back (destroy ps) s ≡ held_sets ps s)
      × (notified (destroy ps) p ≡ held ps p sending_once)
unfolding destroy
destroy-given_back ps p s k r =
    let v = Reach-IsSpace r in
    let rounds : 1 + (ps.capacity - 1) ≡ ps.capacity = omega (arith, v.room) in
    let all = destroy_from-count (ps.capacity - 1) ps.table 1 ps.capacity p k rounds in
    let others = destroy_from-sets (ps.capacity - 1) ps.table 1 ps.capacity s p rounds in
    let first = count_suc (λ j. holds (ps.table j) p k) 0 in
    let null = free_holds (ps.table 0) p k v.null_free in
    let nothing = count_zero (λ j. holds (ps.table j) p k) in
    let first_set = count_suc (λ j. is_port (ps.table j).set s) 0 in
    let null_set = free_set (ps.table 0) s v.null_free in
    let no_set = count_zero (λ j. is_port (ps.table j).set s) in
    let first_once = count_suc (λ j. holds (ps.table j) p sending_once) 0 in
    let null_once = free_holds (ps.table 0) p sending_once v.null_free in
    let no_once = count_zero (λ j. holds (ps.table j) p sending_once) in
    (
      ground (arith, all, first, null, nothing),
      ground (arith, others.0, first_set, null_set, no_set),
      ground (arith, others.1, first_once, null_once, no_once),
    )
