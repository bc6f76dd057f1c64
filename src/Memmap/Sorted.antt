-- ===== src/Memmap/Sorted.antt =====
-- memmap_sort: the entries in ascending order of base, equal bases in the order of the firmware.
use mathlib.Core.List.Perm
use style9_os.Base.{
  ℕ, ◌-◌, ◌≤◌, ◌≡◌, refl, sym, subst, ap, ◌∙◌, inl, inr, List, [], ◌∷◌, Perm, ltb, ◌==◌,
  if◌then◌else◌, Bool-cases, length, All, arith,
}
use style9_os.Memmap.{Memmap, Entry, sort, sort_from}
use style9_os.Memmap.Insertion.{onto, ins, ins_all, sort_from-onto}

abbrev AllAbove : ℕ → List Entry → Type 0
AllAbove b es = All (λ e. b ≤ e.base) es

abbrev AllBelow : ℕ → List Entry → Type 0
AllBelow b es = All (λ e. e.base ≤ b) es

abbrev pub Ascending : List Entry → Type 0
Ascending [] = Unit
Ascending (e ∷ es) = AllAbove e.base es × Ascending es

abbrev Descending : List Entry → Type 0
Descending [] = Unit
Descending (e ∷ es) = AllBelow e.base es × Descending es

AllBelow-mono : (a b : ℕ) (es : List Entry) → a ≤ b → AllBelow a es → AllBelow b es
AllBelow-mono a b [] h all = tt
AllBelow-mono a b (e ∷ es) h all = (omega arith, AllBelow-mono a b es h all.1)

AllBelow-ins :
    (b : ℕ) (t : Entry) (zs : List Entry) → t.base ≤ b → AllBelow b zs → AllBelow b (ins t zs)
unfolding ins
AllBelow-ins b t [] h all = (h, tt)
AllBelow-ins b t (z ∷ zs) h all = ground (arith, AllBelow-ins b t zs h all.1)

ins-Descending : (t : Entry) (zs : List Entry) → Descending zs → Descending (ins t zs)
unfolding ins
ins-Descending t [] d = (tt, tt)
ins-Descending t (z ∷ zs) d =
    ground
      (arith, ins-Descending t zs d.1, AllBelow-ins z.base t zs, AllBelow-mono z.base t.base zs)

ins_all-Descending : (zs es : List Entry) → Descending zs → Descending (ins_all zs es)
unfolding ins_all
ins_all-Descending zs [] d = d
ins_all-Descending zs (e ∷ es) d = ins_all-Descending (ins e zs) es (ins-Descending e zs d)

AllAbove-mono : (a b : ℕ) (es : List Entry) → a ≤ b → AllAbove b es → AllAbove a es
AllAbove-mono a b [] h all = tt
AllAbove-mono a b (e ∷ es) h all = (omega arith, AllAbove-mono a b es h all.1)

-- `zs` reversed before `r` ascends, if every item of `zs` is at most the first of `r`.
onto-Ascending :
    (zs r : List Entry)
    → Descending zs
    → Ascending r
    → All (λ z. AllAbove z.base r) zs
    → Ascending (onto zs r)
onto-Ascending [] r d a h = a
onto-Ascending (z ∷ zs) r d a h = onto-Ascending zs (z ∷ r) d.1 (h.0, a) (both zs d.0 h.1)
  where
    both :
        (ys : List Entry)
        → AllBelow z.base ys
        → All (λ y. AllAbove y.base r) ys
        → All (λ y. AllAbove y.base (z ∷ r)) ys
    both [] p q = tt
    both (y ∷ ys) p q = ((p.0, q.0), both ys p.1 q.1)

-- the entries at base `b`, in order
pub with_base : ℕ → List Entry → List Entry
with_base b [] = []
with_base b (e ∷ es) = if e.base == b then e ∷ with_base b es else with_base b es

with_base-ins :
    (b : ℕ) (t : Entry) (zs : List Entry) → with_base b (ins t zs) ≡ with_base b (t ∷ zs)
unfolding with_base ins
with_base-ins b t [] = refl
with_base-ins b t (z ∷ zs) = ground (arith, with_base-ins b t zs)

with_base-onto :
    (b : ℕ) (zs r : List Entry) → with_base b (onto zs r) ≡ onto (with_base b zs) (with_base b r)
unfolding with_base
with_base-onto b [] r = refl
with_base-onto b (z ∷ zs) r = elim (Bool-cases (z.base == b)) [
  | inl e ↦ rw e (with_base-onto b zs (z ∷ r) ∙ ap (onto (with_base b zs)) (rw e refl))
  | inr e ↦ rw e (with_base-onto b zs (z ∷ r) ∙ ap (onto (with_base b zs)) (rw e refl))
]

onto-perm : (zs r s : List Entry) → Perm r s → Perm (onto zs r) (onto zs s)
onto-perm [] r s p = p
onto-perm (z ∷ zs) r s p = onto-perm zs (z ∷ r) (z ∷ s) (Perm.cons z p)

with_base-ins_all :
    (b : ℕ) (zs es : List Entry) → with_base b (onto (ins_all zs es) []) ≡ with_base b (onto zs es)
unfolding ins_all
with_base-ins_all b zs [] = refl
with_base-ins_all b zs (e ∷ es) =
    with_base-ins_all b (ins e zs) es
    ∙ with_base-onto b (ins e zs) es
    ∙ ap (λ l. onto l (with_base b es)) (with_base-ins b e zs)
    ∙ sym (with_base-onto b (e ∷ zs) es)

ins-perm : (t : Entry) (zs r : List Entry) → Perm (onto (ins t zs) r) (onto zs (t ∷ r))
unfolding ins
ins-perm t [] r = Perm.refl (t ∷ r)
ins-perm t (z ∷ zs) r = elim (Bool-cases (ltb t.base z.base)) [
  | inl e ↦ rw e (Perm.trans (ins-perm t zs (z ∷ r)) (onto-perm zs _ _ (Perm.swap z t r)))
  | inr e ↦ rw e (Perm.refl _)
]

ins_all-perm : (zs es : List Entry) → Perm (onto (ins_all zs es) []) (onto zs es)
unfolding ins_all
ins_all-perm zs [] = Perm.refl _
ins_all-perm zs (e ∷ es) = Perm.trans (ins_all-perm (ins e zs) es) (ins-perm e zs es)

-- What a sorting routine promises of its output `out` for the input `es`.
pub record IsStableSort (es out : List Entry) : Type 0 where
  pub ascending : Ascending out
  pub same_entries : Perm out es
  pub stable : (b : ℕ) → with_base b out ≡ with_base b es

sorted : (es : List Entry) → IsStableSort es (sort_from (length es - 1) 1 es)
unfolding sort_from
sorted [] = record { ascending = tt; same_entries = Perm.refl []; stable = λ b. refl }
sorted (e ∷ es) = subst (IsStableSort (e ∷ es)) (sym place) (record {
  ascending =
      onto-Ascending (ins_all (e ∷ []) es) [] (ins_all-Descending (e ∷ []) es (tt, tt)) tt
        (none_above _);
  same_entries = ins_all-perm (e ∷ []) es;
  stable = λ b. with_base-ins_all b (e ∷ []) es;
})
  where
    rounds : length (e ∷ es) - 1 ≡ length es
    rounds = omega arith

    place : sort_from (length (e ∷ es) - 1) 1 (e ∷ es) ≡ onto (ins_all (e ∷ []) es) []
    place = ap (λ n. sort_from n 1 (e ∷ es)) rounds ∙ sort_from-onto es (e ∷ [])

    none_above : (zs : List Entry) → All (λ z. AllAbove z.base []) zs
    none_above [] = tt
    none_above (z ∷ zs) = (tt, none_above zs)

-- memmap_sort leaves the same entries in ascending order of base, those of equal base in the order
-- they had.
pub sort-IsStableSort : (m : Memmap) → IsStableSort m.entries (sort m).entries
unfolding sort
sort-IsStableSort m = sorted m.entries
