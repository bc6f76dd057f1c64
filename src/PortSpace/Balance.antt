-- ===== src/PortSpace/Balance.antt =====
-- The references that a name table holds on ports, against the calls that take and give them back.
use style9_os.Base.{
  ℕ, ◌+◌, ◌≡◌, refl, inl, inr, Bool, true, false, ◌&&◌, Option, none, some, Option-cases, List, [],
  ◌∷◌, ◌==◌, Bool-cases, arith, count, bit_value,
}
use style9_os.PortRights.{Rights, is_empty, without, allows}
use style9_os.PortSpace.{
  Entry, Space, Call, port_ref, port_deref, set_ref, set_deref, notify_send_once, drop_calls,
  is_free,
}

-- the rights that a port counts
pub data Kind : Type 0 where
  receiving : Kind
  sending : Kind
  sending_once : Kind

abbrev pub has : Rights → Kind → Bool
has r receiving = r.receive
has r sending = r.send
has r sending_once = r.send_once

abbrev pub is_port : Option ℕ → ℕ → Bool
is_port none p = false
is_port (some q) p = q == p

-- the entry holds a right of the kind on port `p`
abbrev pub holds : Entry → ℕ → Kind → Bool
holds e p k = is_port e.port p && has e.rights k

-- The names of the space that hold a right of the kind on port `p`.
abbrev pub held : Space → ℕ → Kind → ℕ
held ps p k = count (λ i. holds (ps.table i) p k) ps.capacity

-- The references of the kind on port `p` that the calls take, and that they give back.
unfoldable pub taken_by : List Call → ℕ → Kind → ℕ
taken_by [] p k = 0
taken_by (port_ref q r ∷ cs) p k = bit_value (q == p && has r k) + taken_by cs p k
taken_by (port_deref q r ∷ cs) p k = taken_by cs p k
taken_by (set_ref s ∷ cs) p k = taken_by cs p k
taken_by (set_deref s ∷ cs) p k = taken_by cs p k
taken_by (notify_send_once q ∷ cs) p k = taken_by cs p k

unfoldable pub given_back : List Call → ℕ → Kind → ℕ
given_back [] p k = 0
given_back (port_ref q r ∷ cs) p k = given_back cs p k
given_back (port_deref q r ∷ cs) p k = bit_value (q == p && has r k) + given_back cs p k
given_back (set_ref s ∷ cs) p k = given_back cs p k
given_back (set_deref s ∷ cs) p k = given_back cs p k
given_back (notify_send_once q ∷ cs) p k = given_back cs p k

-- The calls make up for what the table gained and lost.
abbrev pub IsBalanced : Space → Space → List Call → ℕ → Kind → Type 0
IsBalanced ps q calls p k = held q p k + given_back calls p k ≡ held ps p k + taken_by calls p k

pub free_holds : (e : Entry) (p : ℕ) (k : Kind) → is_free e ≡ true → holds e p k ≡ false
free_holds e p k f = elim (Option-cases e.port) [
  | inl nobody ↦ simp nobody
  | inr (q, named) ↦ absurd (ground (arith, named, f))
]

pub drop_calls-given_back :
    (e : Entry) (p : ℕ) (k : Kind)
    → (given_back (drop_calls e) p k ≡ bit_value (holds e p k)) × (taken_by (drop_calls e) p k ≡ 0)
unfolding given_back taken_by
drop_calls-given_back e p k = elim (Option-cases e.port) [
  | inl nobody ↦ elim (Option-cases e.set) [
    | inl no_set ↦ simp (nobody, no_set) (refl, refl)
    | inr (s, a_set) ↦ simp (nobody, a_set) (refl, refl)
  ]
  | inr (q, named) ↦ elim (Bool-cases e.rights.send_once) [
    | inl once ↦ elim (Option-cases e.set) [
      | inl no_set ↦ simp (named, once, no_set) (omega arith, refl)
      | inr (s, a_set) ↦ simp (named, once, a_set) (omega arith, refl)
    ]
    | inr not_once ↦ elim (Option-cases e.set) [
      | inl no_set ↦ simp (named, not_once, no_set) (omega arith, refl)
      | inr (s, a_set) ↦ simp (named, not_once, a_set) (omega arith, refl)
    ]
  ]
]

-- Taking rights that the entry has leaves it the others.
pub without-has :
    (r s : Rights) (k : Kind)
    → allows r s ≡ true
    → bit_value (has (without r s) k) + bit_value (has s k) ≡ bit_value (has r k)
without-has r s receiving a = ground arith
without-has r s sending a = ground arith
without-has r s sending_once a = ground arith

pub empty-has : (r : Rights) (k : Kind) → is_empty r ≡ true → has r k ≡ false
empty-has r receiving e = ground arith
empty-has r sending e = ground arith
empty-has r sending_once e = ground arith
