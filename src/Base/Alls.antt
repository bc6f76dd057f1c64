-- ===== src/Base/Alls.antt =====
-- `All` along appends and permutations.
use mathlib.Core.Path.{subst, sym}
use mathlib.Core.List.{
  List, [], ◌∷◌, ◌++◌, Mem, Perm, mem-cons, mem-cons_self, mem-cons_of_mem, not-mem-nil,
}
use mathlib.Core.List.Perm
use mathlib.Core.Logic.Or
use style9_os.Base.Lists.{All}

module _ {ℓ} {A : Type ℓ} (P : A → Type 0) where
  pub All-append : (xs ys : List A) → All P xs → All P ys → All P (xs ++ ys)
  All-append [] ys h k = k
  All-append (x ∷ xs) ys h k = (h.0, All-append xs ys h.1 k)

  mem-All : (xs : List A) → ((e : A) → Mem e xs → P e) → All P xs
  mem-All [] h = tt
  mem-All (x ∷ xs) h = (h x mem-cons_self, mem-All xs (λ e m. h e (mem-cons_of_mem x m)))

module _ {ℓ} {A : Type ℓ} (P : A → Type 0) (prop : (a : A) → IsProp (P a)) where
  All-mem : (xs : List A) (e : A) → All P xs → Mem e xs → P e
  All-mem [] e h m = absurd (not-mem-nil m)
  All-mem (x ∷ xs) e h m =
      Or.elim (prop e) (mem-cons.0 m) (λ same. subst P (sym same) h.0) (All-mem xs e h.1)

  -- What holds of every item of a list holds of every item of a rearrangement.
  pub All-perm : (xs ys : List A) → Perm xs ys → All P ys → All P xs
  All-perm xs ys p h = mem-All P xs (λ e m. All-mem ys e h ((Perm.mem_iff p).0 m))
