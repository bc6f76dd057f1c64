-- ===== src/Witness/Held.antt =====
-- witness_released: which lock leaves the held stack.
use style9_os.Base.{
  ℕ, suc, ◌<◌, ◌≡◌, refl, ap, ◌∙◌, ◌⊎◌, inl, inr, true, false, Option, none, some, List, [], ◌∷◌,
  ◌++◌, ltb, ◌==◌, if◌then◌else◌, Bool-cases, arith, length, length-append,
}
use style9_os.Witness.{Lock, push, released, strike, top_is, drop_top, name_of, max_held}
use style9_os.Witness.Order.{Holds}

-- The stack is `before ++ (l ∷ after)`, where `l` has that name and nothing after it has.
pub record LastOf (held before after : List Lock) (l : Lock) (name : ℕ) : Type 0 where
  pub split : held ≡ before ++ (l ∷ after)
  pub named : l.name ≡ name
  pub last : ¬ Holds after name

top_is-push :
    (hs : List Lock) (l : Lock) (name : ℕ) → top_is (hs ++ (l ∷ [])) name ≡ (l.name == name)
unfolding top_is
top_is-push [] l name = refl
top_is-push (h ∷ []) l name = refl
top_is-push (h ∷ g ∷ hs) l name = top_is-push (g ∷ hs) l name

drop_top-push : (hs : List Lock) (l : Lock) → drop_top (hs ++ (l ∷ [])) ≡ hs
unfolding drop_top
drop_top-push [] l = refl
drop_top-push (h ∷ []) l = refl
drop_top-push (h ∷ g ∷ hs) l = ap (λ r. h ∷ r) (drop_top-push (g ∷ hs) l)

-- The quick path takes out what the loop would have.
strike-top :
    (hs : List Lock) (name : ℕ) → top_is hs name ≡ true → strike hs name ≡ some (drop_top hs)
unfolding strike top_is drop_top
strike-top [] name e = absurd (ground (arith, e))
strike-top (h ∷ []) name e = rw e refl
strike-top (h ∷ g ∷ hs) name e = rw (strike-top (g ∷ hs) name e) refl

-- What the loop takes out: the last lock of that name, or nothing if there is none.
data Struck (held : List Lock) (name : ℕ) : Option (List Lock) → Type 0 where
  struck :
      (before after : List Lock) (l : Lock)
      → LastOf held before after l name
      → Struck held name (some (before ++ after))
  absent : ¬ Holds held name → Struck held name none

Struck-head :
    (h : Lock) (hs : List Lock) (name : ℕ)
    → (h.name == name) ≡ true
    → ¬ Holds hs name
    → Struck (h ∷ hs) name (some hs)
Struck-head h hs name e no_more =
    struck [] hs h (record { split = refl; named = ground (arith, e); last = no_more })

Struck-none :
    (h : Lock) (hs : List Lock) (name : ℕ)
    → (h.name == name) ≡ false
    → ¬ Holds hs name
    → Struck (h ∷ hs) name none
unfolding Holds
Struck-none h hs name e no_more =
    absent (λ holds. elim holds [ inl q ↦ ground (arith, q, e) | inr deep ↦ no_more deep ])

Struck-cons :
    (h : Lock) (hs : List Lock) (name : ℕ) (o : Option (List Lock))
    → Struck hs name o
    → Struck
        (h ∷ hs)
        name
        (elim o [ some rest ↦ some (h ∷ rest) | none ↦ if h.name == name then some hs else none ])
Struck-cons h hs name _ (struck before after l at) =
    struck (h ∷ before) after l
      (record { split = ap (λ r. h ∷ r) at.split; named = at.named; last = at.last })
Struck-cons h hs name none (absent no_more) = elim (Bool-cases (h.name == name)) [
  | inl e ↦ rw e (Struck-head h hs name e no_more)
  | inr e ↦ rw e (Struck-none h hs name e no_more)
]

strike-Struck : (hs : List Lock) (name : ℕ) → Struck hs name (strike hs name)
unfolding strike
strike-Struck [] name = absent (λ h. unfold Holds in h)
strike-Struck (h ∷ hs) name = Struck-cons h hs name (strike hs name) (strike-Struck hs name)

or_same : List Lock → Option (List Lock) → List Lock
or_same held none = held
or_same held (some rest) = rest

released-strike :
    (anon : ℕ) (held : List Lock) (sl_name : Option ℕ)
    → released anon held sl_name ≡ or_same held (strike held (name_of anon sl_name))
unfolding released or_same
released-strike anon [] sl_name = unfold strike in refl
released-strike anon (h ∷ hs) sl_name = elim (Bool-cases (top_is (h ∷ hs) (name_of anon sl_name))) [
  | inl top ↦ rw (nonempty, top, strike-top (h ∷ hs) _ top) refl
  | inr below ↦ rw (nonempty, below) refl
]
  where
    nonempty : (suc (length hs) == 0) ≡ false
    nonempty = ground arith

-- Releasing a lock takes the last lock of its name off the stack, and nothing else; if there is none,
-- the stack stays as it is.
pub released_cases :
    (anon : ℕ) (held : List Lock) (sl_name : Option ℕ)
    → ((before : List Lock) × (after : List Lock) × (l : Lock) × LastOf held before after l
          (name_of anon sl_name)
        × (released anon held sl_name ≡ before ++ after))
      ⊎ ((¬ Holds held (name_of anon sl_name)) × (released anon held sl_name ≡ held))
unfolding or_same
released_cases anon held sl_name =
    go (strike held (name_of anon sl_name)) (strike-Struck held (name_of anon sl_name))
      (released-strike anon held sl_name)
  where
    go :
        (o : Option (List Lock))
        → Struck held (name_of anon sl_name) o
        → released anon held sl_name ≡ or_same held o
        → ((before : List Lock) × (after : List Lock) × (l : Lock) × LastOf held before after l
              (name_of anon sl_name)
            × (released anon held sl_name ≡ before ++ after))
          ⊎ ((¬ Holds held (name_of anon sl_name)) × (released anon held sl_name ≡ held))
    go _ (struck before after l at) e = inl (before, after, l, at, e)
    go none (absent no_more) e = inr (no_more, e)

-- Releasing the lock just acquired gives the stack back, as long as the stack had room for it.
pub released-push :
    (anon : ℕ) (held : List Lock) (sl_name : Option ℕ) (ra : ℕ)
    → length held < max_held
    → released anon (push held (name_of anon sl_name) ra) sl_name ≡ held
unfolding push released
released-push anon held sl_name ra room =
    let l : Lock = record { name = name_of anon sl_name; ra = ra } in
    let has_room : ltb (length held) max_held ≡ true = ground arith in
    let nonempty : (length (held ++ (l ∷ [])) == 0) ≡ false =
      ground (arith, length-append held (l ∷ [])) in
    let top : top_is (held ++ (l ∷ [])) (name_of anon sl_name) ≡ true =
      top_is-push held l _ ∙ ground arith in
    rw (has_room, nonempty, top) (drop_top-push held l)
