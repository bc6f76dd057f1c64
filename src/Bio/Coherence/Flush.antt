-- ===== src/Bio/Coherence/Flush.antt =====
-- The patch of bio_write and a write that the driver gives up on keep the invariant.
use style9_os.Base.{
  ℕ, put, put-other, ◌+◌, ◌-◌, ◌*◌, ◌^◌, ◌≤◌, ◌<◌, ◌≡◌, sym, subst, subst₂, ap, ◌∙◌, ◌≢◌, ◌⊎◌, inl,
  inr, Bool, true, false, Option, none, some, arith, ℕ_discrete, Bool-cases, dec_lt,
}
use style9_os.Bio.{Buf, patch}
use style9_os.Bio.Patched.{PatchedBuf}
use style9_os.Bio.Patching.{patch-PatchedBuf, patch-IsUnique}
use style9_os.Bio.Concurrent.{Write, Holds, Sys, over, mark, give_up}
use style9_os.Bio.Coherence.{IsAhead, Agrees, BufOk, IsSound}
use style9_os.Bio.Coherence.Starts.{BufOk-map, some-inj, writes-at}

module _ {Sector : Type 0} where
  still :
      (writes : ℕ → Option (Write Sector)) (t t' : ℕ) (q : Write Sector)
      → put writes t none t' ≡ some q
      → (t' ≢ t) × (writes t' ≡ some q)
  still writes t t' q h = elim (writes-at writes t none t' q h) [
    | inl (a, is) ↦ absurd (cc is)
    | inr rest ↦ rest
  ]

  not-Holds :
      (p : Write Sector) (d x : ℕ)
      → ¬ Holds p d x
      → (d ≢ p.drive) ⊎ (x < p.lba) ⊎ (p.lba + p.nsec ≤ x)
  not-Holds p d x out = elim (ℕ_discrete d p.drive) [
    | no ne ↦ inl ne
    | yes e ↦ elim (dec_lt x p.lba) [
      | yes l ↦ inr (inl l)
      | no nl ↦ elim (dec_lt x (p.lba + p.nsec)) [
        | yes u ↦ absurd (out (e, omega arith, u))
        | no nu ↦ inr (inr (omega arith))
      ]
    ]
  ]

  Holds-cases : (p : Write Sector) (d x : ℕ) → Holds p d x ⊎ (¬ Holds p d x)
  Holds-cases p d x = elim (ℕ_discrete d p.drive) [
    | no ne ↦ inr (λ h. ne h.0)
    | yes e ↦ elim (dec_lt x p.lba) [
      | yes l ↦ inr (λ h. absurd (omega (arith, l, h.1)))
      | no nl ↦ elim (dec_lt x (p.lba + p.nsec)) [
        | yes u ↦ inl (e, omega arith, u)
        | no nu ↦ inr (λ h. nu h.2)
      ]
    ]
  ]

  -- the buffer holds the same page as before the patch
  kept-Agrees :
      (s : Sys Sector) (writes : ℕ → Option (Write Sector)) (p : Write Sector) (b b' : Buf Sector)
      (w : ℕ)
      → PatchedBuf b b' p.drive p.lba (p.lba + p.nsec) (λ x. p.bytes (x - p.lba))
      → (b'.body w ≡ s.disk b.drive (b.page * 8 + w))
        ⊎ IsAhead writes s.stored s.marked b.drive (b.page * 8 + w)
      → Agrees s.disk writes s.stored s.marked b' w
  kept-Agrees s writes p b b' w q a =
      subst₂
        (λ d n. (b'.body w ≡ s.disk d (n * 8 + w)) ⊎ IsAhead writes s.stored s.marked d (n * 8 + w))
        (sym q.drive_kept) (sym q.page_kept) a

  -- With the write at `t` over, the others stay apart and hold what they put on the disk.
  over-apart :
      (s : Sys Sector) (t : ℕ)
      → IsSound s
      → (t1 t2 : ℕ) (p q : Write Sector) → put s.writes t none t1 ≡ some p
      → put s.writes t none t2 ≡ some q
      → t1 ≢ t2
      → (d x : ℕ) → s.marked d x ≡ false
      → Holds p d x
      → ¬ Holds q d x
  over-apart s t v t1 t2 p q e1 e2 ne =
      v.apart t1 t2 p q (still s.writes t t1 p e1).1 (still s.writes t t2 q e2).1 ne

  over-held :
      (s : Sys Sector) (t : ℕ)
      → IsSound s
      → (t' : ℕ) (p : Write Sector) (x : ℕ) → put s.writes t none t' ≡ some p
      → p.lba ≤ x
      → x < p.lba + p.nsec
      → s.marked p.drive x ≡ false
      → s.stored t' x ≡ true
      → s.disk p.drive x ≡ p.bytes (x - p.lba)
  over-held s t v t' p x e = v.held t' p x (still s.writes t t' p e).1

  -- a write that is ahead, when another is over
  over-IsAhead :
      (s : Sys Sector) (t : ℕ) (marked' : ℕ → ℕ → Bool) (d x : ℕ)
      → (s.marked d x ≡ true → marked' d x ≡ true)
      → ((p : Write Sector)
          → s.writes t ≡ some p
          → Holds p d x
          → s.stored t x ≡ true
          → marked' d x ≡ true)
      → IsAhead s.writes s.stored s.marked d x
      → IsAhead (put s.writes t none) s.stored marked' d x
  over-IsAhead s t marked' d x more not_t (inr m) = inr (more m)
  over-IsAhead s t marked' d x more not_t (inl (t', q, is, h, st)) = elim (ℕ_discrete t' t) [
    | no ne ↦ inl (t', q, put-other s.writes t none t' ne ∙ is, h, st)
    | yes e ↦ inr (not_t q (ap s.writes (sym e) ∙ is) h (ap (λ n. s.stored n x) (sym e) ∙ st))
  ]

  -- The sectors that a write given up has stored are marked.
  pub give_up-IsSound :
      (s : Sys Sector) (t : ℕ) (p : Write Sector)
      → s.writes t ≡ some p
      → IsSound s
      → IsSound (give_up s t p)
  unfolding give_up
  give_up-IsSound s t p is v = record {
    unique = v.unique;
    bufs_ok = λ k h.
        BufOk-map {disk = s.disk} {writes = s.writes} {stored = s.stored} {marked = s.marked}
          (λ w u a. elim a [
            | inl e ↦ inl e
            | inr ahead ↦ inr (
                over-IsAhead s t (mark s.marked p (s.stored t)) (s.bio.bufs k).drive
                  ((s.bio.bufs k).page * 8 + w) (λ m. ground (arith, m))
                  (λ q is' holds st.
                    let mine =
                      subst (λ z. Holds z (s.bio.bufs k).drive ((s.bio.bufs k).page * 8 + w))
                        (some-inj (sym is' ∙ is)) holds in
                    ground (arith, mine, st))
                  ahead)
          ])
          (v.bufs_ok k h);
    apart = λ t1 t2 p1 p2 e1 e2 ne d x clean.
        over-apart s t v t1 t2 p1 p2 e1 e2 ne d x (ground (arith, clean));
    held = λ t' q x e lo hi clean. over-held s t v t' q x e lo hi (ground (arith, clean));
  }

  -- what a buffer says of a sector after the patch, by what it said before
  patch-Agrees :
      (s : Sys Sector) (t : ℕ) (p : Write Sector) (b b' : Buf Sector) (w : ℕ)
      → s.writes t ≡ some p
      → PatchedBuf b b' p.drive p.lba (p.lba + p.nsec) (λ x. p.bytes (x - p.lba))
      → w < 8
      → ¬ Holds p b.drive (b.page * 8 + w)
      → Agrees s.disk s.writes s.stored s.marked b w
      → Agrees s.disk (put s.writes t none) s.stored s.marked b' w
  patch-Agrees s t p b b' w is q u out a =
      let same : b'.body w ≡ b.body w = q.body_old w u (not-Holds p b.drive (b.page * 8 + w) out) in
      kept-Agrees s (put s.writes t none) p b b' w q (elim a [
        | inl e ↦ inl (same ∙ e)
        | inr ahead ↦ inr (
            over-IsAhead s t s.marked b.drive (b.page * 8 + w) (λ m. m)
              (λ r is' h st.
                absurd
                  (out (subst (λ z. Holds z b.drive (b.page * 8 + w)) (some-inj (sym is' ∙ is)) h)))
              ahead)
      ])

  patch-BufOk :
      (s : Sys Sector) (t : ℕ) (p : Write Sector) (b b' : Buf Sector) (l : ℕ → Bool)
      → s.writes t ≡ some p
      → ((x : ℕ)
          → p.lba ≤ x
          → x < p.lba + p.nsec
          → s.marked p.drive x ≡ false
          → s.disk p.drive x ≡ p.bytes (x - p.lba))
      → PatchedBuf b b' p.drive p.lba (p.lba + p.nsec) (λ x. p.bytes (x - p.lba))
      → BufOk s.disk s.writes s.stored s.marked b l
      → BufOk s.disk (put s.writes t none) s.stored s.marked b' l
  patch-BufOk s t p b b' l is on_disk q ok = record {
    quiet = λ f. q.valid_kept ∙ ok.quiet (sym q.busy_kept ∙ f);
    agrees = λ v w u. elim (Holds-cases p b.drive (b.page * 8 + w)) [
      | inr out ↦ patch-Agrees s t p b b' w is q u out (ok.agrees (sym q.valid_kept ∙ v) w u)
      | inl (d, lo, hi) ↦
          let valid : b.valid ≡ true = sym q.valid_kept ∙ v in
          let idle : b.busy ≡ false = ground (arith, valid, ok.quiet) in
          kept-Agrees s (put s.writes t none) p b b' w q
            (elim (Bool-cases (s.marked p.drive (b.page * 8 + w))) [
              | inl m ↦ inr (inr (ap (λ e. s.marked e (b.page * 8 + w)) d ∙ m))
              | inr clean ↦ inl (
                  q.body_new w u idle valid d lo hi
                  ∙ sym (on_disk (b.page * 8 + w) lo hi clean)
                  ∙ ap (λ e. s.disk e (b.page * 8 + w)) (sym d))
            ])
    ];
    flight = λ f n w u arrived. elim (Holds-cases p b.drive (b.page * 8 + w)) [
      | inr out ↦
          let busy : b.busy ≡ true = sym q.busy_kept ∙ f in
          patch-Agrees s t p b b' w is q u out
            (ok.flight busy (ground (arith, q.stale_kept, n)) w u arrived)
      | inl (d, lo, hi) ↦
          absurd
            (cc (q.stale_new (sym q.busy_kept ∙ f) d (omega arith) (omega arith) (omega arith)))
    ];
  }

  pub patch-IsSound :
      (s : Sys Sector) (t : ℕ) (p : Write Sector)
      → s.writes t ≡ some p
      → p.lba + p.nsec < 2 ^ 64
      → ((x : ℕ) → p.lba ≤ x → x < p.lba + p.nsec → s.stored t x ≡ true)
      → IsSound s
      → IsSound (over (record s { bio = patch s.bio p.drive p.lba p.nsec p.bytes }) t)
  patch-IsSound s t p is small all v = record {
    unique = patch-IsUnique s.bio p.drive p.lba p.nsec p.bytes small v.unique;
    bufs_ok = λ k h.
        patch-BufOk s t p (s.bio.bufs k) _ (s.loaded k) is
          (λ x lo hi clean. v.held t p x is lo hi clean (all x lo hi))
          (patch-PatchedBuf s.bio p.drive p.lba p.nsec p.bytes small v.unique k h) (v.bufs_ok k h);
    apart = over-apart s t v;
    held = over-held s t v;
  }
