-- ===== src/Bio/Coherence/Starts.antt =====
-- A write of bio_write starts: the invariant holds on.
use style9_os.Base.{
  ℕ, put, put_self, put-other, ◌+◌, ◌*◌, ◌<◌, ◌≡◌, sym, subst, ap, ◌∙◌, ◌≢◌, ◌⊎◌, inl, inr, Bool,
  true, false, Option, none, some, arith, ℕ_discrete, Bool-cases,
}
use style9_os.Bio.{Buf}
use style9_os.Bio.Concurrent.{Write, Holds, Apart, Sys, mark, start, cross}
use style9_os.Bio.Coherence.{Agrees, BufOk, IsSound}

module _ {Sector : Type 0} where
  -- The disk or the writes change, and every sector that agreed with the disk still agrees.
  pub BufOk-map :
      {disk disk' : ℕ → ℕ → Sector} {writes writes' : ℕ → Option (Write Sector)}
      {stored stored' marked marked' : ℕ → ℕ → Bool} {b : Buf Sector} {l : ℕ → Bool}
      → ((w : ℕ)
          → w < 8
          → Agrees disk writes stored marked b w
          → Agrees disk' writes' stored' marked' b w)
      → BufOk disk writes stored marked b l
      → BufOk disk' writes' stored' marked' b l
  BufOk-map f ok = record {
    quiet = ok.quiet;
    agrees = λ v w u. f w u (ok.agrees v w u);
    flight = λ b n w u l. f w u (ok.flight b n w u l);
  }

  pub some-inj : {p q : Write Sector} → some p ≡ some q → p ≡ q
  some-inj e = cc

  -- the writes in flight, after a change at `t`
  pub writes-at :
      (writes : ℕ → Option (Write Sector)) (t : ℕ) (o : Option (Write Sector)) (t' : ℕ)
      (q : Write Sector)
      → put writes t o t' ≡ some q
      → ((t' ≡ t) × (o ≡ some q)) ⊎ ((t' ≢ t) × (writes t' ≡ some q))
  writes-at writes t o t' q h = elim (ℕ_discrete t' t) [
    | yes e ↦ inl (e, sym (put_self writes t o t' e) ∙ h)
    | no ne ↦ inr (ne, sym (put-other writes t o t' ne) ∙ h)
  ]

  -- A write starts, and at least the sectors that were marked still are.
  begin-IsSound :
      (s : Sys Sector) (t : ℕ) (p : Write Sector) (marked' : ℕ → ℕ → Bool)
      → s.writes t ≡ none
      → ((d x : ℕ) → s.marked d x ≡ true → marked' d x ≡ true)
      → ((t' : ℕ) (q : Write Sector)
          → s.writes t' ≡ some q
          → (d x : ℕ) → marked' d x ≡ false
          → Holds p d x
          → ¬ Holds q d x)
      → IsSound s
      → IsSound (record (start s t p) { marked = marked' })
  unfolding start
  begin-IsSound s t p marked' free more others v = record {
    unique = v.unique;
    bufs_ok = λ k h.
        BufOk-map {disk = s.disk} {writes = s.writes} {stored = s.stored} {marked = s.marked}
          (λ w u a. elim a [
            | inl e ↦ inl e
            | inr (inr m) ↦ inr (inr (more _ _ m))
            | inr (inl (t', q, is, holds, st)) ↦ elim (ℕ_discrete t' t) [
              | yes e ↦ absurd (cc (ap s.writes e))
              | no ne ↦ inr (
                  inl (
                    t',
                    q,
                    put-other s.writes t (some p) t' ne ∙ is,
                    holds,
                    ap (λ f. f ((s.bio.bufs k).page * 8 + w))
                          (put-other s.stored t (λ x. false) t' ne)
                        ∙ st,
                  ))
            ]
          ])
          (v.bufs_ok k h);
    apart = λ t1 t2 p1 p2 e1 e2 ne d x clean h1 h2. elim (writes-at s.writes t (some p) t1 p1 e1) [
      | inl (a, is) ↦ elim (writes-at s.writes t (some p) t2 p2 e2) [
        | inl (b, is') ↦ ne (a ∙ sym b)
        | inr (b, is') ↦
            others t2 p2 is' d x clean (subst (λ y. Holds y d x) (sym (some-inj is)) h1) h2
      ]
      | inr (a, is) ↦ elim (writes-at s.writes t (some p) t2 p2 e2) [
        | inl (b, is') ↦
            others t1 p1 is d x clean (subst (λ y. Holds y d x) (sym (some-inj is')) h2) h1
        | inr (b, is') ↦ v.apart t1 t2 p1 p2 is is' ne d x (was_clean d x clean) h1 h2
      ]
    ];
    held = λ t' q x e lo hi clean st. elim (writes-at s.writes t (some p) t' q e) [
      | inl (a, is) ↦ absurd (cc (ap (λ f. f x) (put_self s.stored t (λ x. false) t' a)))
      | inr (a, is) ↦
          v.held t' q x is lo hi (was_clean q.drive x clean)
            (sym (ap (λ f. f x) (put-other s.stored t (λ x. false) t' a)) ∙ st)
    ];
  }
    where
      was_clean : (d x : ℕ) → marked' d x ≡ false → s.marked d x ≡ false
      was_clean d x clean = elim (Bool-cases (s.marked d x)) [
        | inr c ↦ c
        | inl m ↦ absurd (cc (more d x m))
      ]

  pub start-IsSound :
      (s : Sys Sector) (t : ℕ) (p : Write Sector)
      → s.writes t ≡ none
      → ((t' : ℕ) (q : Write Sector) → s.writes t' ≡ some q → Apart p q)
      → IsSound s
      → IsSound (start s t p)
  unfolding start
  start-IsSound s t p free others v =
      begin-IsSound s t p s.marked free (λ d x m. m) (λ t' q is d x clean. others t' q is d x) v

  pub cross-IsSound :
      (s : Sys Sector) (t : ℕ) (p : Write Sector)
      → s.writes t ≡ none
      → IsSound s
      → IsSound (cross s t p)
  unfolding cross
  cross-IsSound s t p free v =
      begin-IsSound s t p (mark s.marked p (λ x. true)) free (λ d x m. ground (arith, m))
        (λ t' q is d x clean holds. absurd (ground (arith, clean, holds))) v
