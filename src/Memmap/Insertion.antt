-- ===== src/Memmap/Insertion.antt =====
-- memmap_sort on the array is insertion into a list: the sorted part is kept reversed, so that its
-- last slot is the head of a list.
use style9_os.Base.{
  ℕ, suc, ◌+◌, ◌≡◌, refl, ap, ◌∙◌, inl, inr, List, [], ◌∷◌, ltb, if◌then◌else◌, Bool-cases, length,
  get_or, set, arith,
}
use style9_os.Memmap.{Entry, dummy, sift, sort_from}

-- the items of `zs`, last first, before `r`
abbrev pub onto {ℓ} : {A : Type ℓ} → List A → List A → List A
onto [] r = r
onto (z ∷ zs) r = onto zs (z ∷ r)

-- the entry goes behind those above it
unfoldable pub ins : Entry → List Entry → List Entry
ins t [] = t ∷ []
ins t (z ∷ zs) = if ltb t.base z.base then z ∷ ins t zs else t ∷ z ∷ zs

unfoldable pub ins_all : List Entry → List Entry → List Entry
ins_all zs [] = zs
ins_all zs (e ∷ es) = ins_all (ins e zs) es

length-ins : (t : Entry) (zs : List Entry) → length zs + 1 ≡ length (ins t zs)
unfolding ins
length-ins t [] = refl
length-ins t (z ∷ zs) = ground (arith, length-ins t zs)

get_or-onto :
    (zs r : List Entry) (k : ℕ) (d : Entry) → get_or (onto zs r) (length zs + k) d ≡ get_or r k d
get_or-onto [] r k d = ap (λ i. get_or r i d) (omega arith)
get_or-onto (z ∷ zs) r k d =
    ap (λ i. get_or (onto zs (z ∷ r)) i d) (omega arith) ∙ get_or-onto zs (z ∷ r) (suc k) d

set-onto :
    (zs r : List Entry) (k : ℕ) (v : Entry)
    → set (onto zs r) (length zs + k) v ≡ onto zs (set r k v)
set-onto [] r k v = ap (λ i. set r i v) (omega arith)
set-onto (z ∷ zs) r k v =
    ap (λ i. set (onto zs (z ∷ r)) i v) (omega arith) ∙ set-onto zs (z ∷ r) (suc k) v

get_or-last : (zs r : List Entry) (z d : Entry) → get_or (onto zs (z ∷ r)) (length zs) d ≡ z
get_or-last zs r z d =
    ap (λ i. get_or (onto zs (z ∷ r)) i d) (omega arith) ∙ get_or-onto zs (z ∷ r) 0 d

set-next :
    (zs r : List Entry) (z h v : Entry)
    → set (onto zs (z ∷ h ∷ r)) (suc (length zs)) v ≡ onto zs (z ∷ v ∷ r)
set-next zs r z h v =
    ap (λ i. set (onto zs (z ∷ h ∷ r)) i v) (omega arith) ∙ set-onto zs (z ∷ h ∷ r) 1 v

-- Sifting the item in slot `length zs` inserts it into the part before the slot.
sift-onto :
    (zs r : List Entry) (h t : Entry) → sift (length zs) (onto zs (h ∷ r)) t ≡ onto (ins t zs) r
unfolding sift ins
sift-onto [] r h t = refl
sift-onto (z ∷ zs) r h t = elim (Bool-cases (ltb t.base z.base)) [
  | inl e ↦ rw (get_or-last zs (h ∷ r) z dummy, set-next zs r z h z, e) (sift-onto zs (z ∷ r) z t)
  | inr e ↦ rw (get_or-last zs (h ∷ r) z dummy, set-next zs r z h t, e) refl
]

pub sort_from-onto :
    (rest zs : List Entry)
    → sort_from (length rest) (length zs) (onto zs rest) ≡ onto (ins_all zs rest) []
unfolding sort_from ins_all
sort_from-onto [] zs = refl
sort_from-onto (e ∷ es) zs =
    ap (λ x. sort_from (length es) (length zs + 1) (sift (length zs) (onto zs (e ∷ es)) x))
      (get_or-last zs es e dummy)
    ∙ ap (sort_from (length es) (length zs + 1)) (sift-onto zs es e e)
    ∙ ap (λ i. sort_from (length es) i (onto (ins e zs) es)) (length-ins e zs)
    ∙ sort_from-onto es (ins e zs)
