-- ===== src/Bio/Coherence/Reachable.antt =====
-- The states that the threads can reach from bio_init.
use style9_os.Base.{
  ℕ, ◌<◌, ◌≡◌, refl, sym, subst, ap, ◌∙◌, ◌⊎◌, inl, inr, Bool, true, false, ◌&&◌, none, ltb, ◌==◌,
  Bool-cases, arith,
}
use style9_os.Bio.{Buf, Bio, nbufs, invalidate_drive}
use style9_os.Bio.Scan.{is_live}
use style9_os.Bio.Patch.{IsUnique}
use style9_os.Bio.Concurrent.{
  Sys, Step, looks, loads, fetches, fails, starts, stores, patches, crosses, gives_up, bypasses,
  forgets, Reach, here, next,
}
use style9_os.Bio.Coherence.{Agrees, BufOk, IsSound}
use style9_os.Bio.{init}
use style9_os.Bio.Coherence.Fetch.{look-IsSound, load-IsSound, fetch-IsSound, fail-IsSound}
use style9_os.Bio.Coherence.Starts.{start-IsSound, cross-IsSound}
use style9_os.Bio.Coherence.Writes.{bypass-IsSound, store-IsSound}
use style9_os.Bio.Coherence.Flush.{give_up-IsSound, patch-IsSound}

module _ {Sector : Type 0} where
  -- The first state: the cache as bio_init leaves it, over the disks' sectors.
  unfoldable pub boot : Bio Sector → (ℕ → ℕ → Sector) → Sys Sector
  boot bio disk = record {
    bio = init true bio;
    disk = disk;
    writes = λ t. none;
    stored = λ t x. false;
    loaded = λ k w. false;
    marked = λ d x. false;
  }

  boot-IsSound :
      (bio : Bio Sector) (disk : ℕ → ℕ → Sector)
      → ((k : ℕ) → k < 64 → (bio.bufs k).busy ≡ false)
      → IsSound (boot bio disk)
  unfolding boot init IsUnique
  boot-IsSound bio disk idle = record {
    unique = λ i j hi hj ep ed li. absurd (ground (arith, li, idle i hi));
    bufs_ok = λ k h. record {
      quiet = λ q. refl;
      agrees = λ q. absurd (ground (arith, q));
      flight = λ q. absurd (ground (arith, q, idle k h));
    };
    apart = λ t t' p q e. absurd (cc e);
    held = λ t p x e. absurd (cc e);
  }

  -- a buffer that is dropped from the cache
  dropped-BufOk :
      (s : Sys Sector) (b : Buf Sector) (l : ℕ → Bool)
      → BufOk s.disk s.writes s.stored s.marked b l
      → BufOk s.disk s.writes s.stored s.marked (record b { valid = false }) l
  dropped-BufOk s b l ok = record {
    quiet = λ q. refl;
    agrees = λ q. absurd (ground (arith, q));
    flight = ok.flight;
  }

  forget-cases :
      (bio : Bio Sector) (drive k : ℕ)
      → ((invalidate_drive bio drive).bufs k ≡ bio.bufs k)
        ⊎ ((invalidate_drive bio drive).bufs k ≡ record (bio.bufs k) { valid = false })
  unfolding invalidate_drive
  forget-cases bio drive k = elim (Bool-cases bio.ready) [
    | inr off ↦ simp off (inl refl)
    | inl on ↦ elim (Bool-cases (ltb k nbufs && (bio.bufs k).drive == drive)) [
      | inl named ↦ simp (on, named) (inr refl)
      | inr other ↦ simp (on, other) (inl refl)
    ]
  ]

  -- what is dropped was live before, with the same page
  forget-live :
      (bio : Bio Sector) (drive k : ℕ)
      → let b = bio.bufs k in
        let b' = (invalidate_drive bio drive).bufs k in
        (b'.page ≡ b.page) × (b'.drive ≡ b.drive) × (is_live b' ≡ true → is_live b ≡ true)
  forget-live bio drive k = elim (forget-cases bio drive k) [
    | inl e ↦ (ap (λ x. x.page) e, ap (λ x. x.drive) e, λ l. sym (ap (λ x. is_live x) e) ∙ l)
    | inr e ↦ (
      ap (λ x. x.page) e,
      ap (λ x. x.drive) e,
      λ l. ground (arith, sym (ap (λ x. is_live x) e) ∙ l),
    )
  ]

  forget-IsSound :
      (s : Sys Sector) (drive : ℕ)
      → IsSound s
      → IsSound (record s { bio = invalidate_drive s.bio drive })
  unfolding IsUnique
  forget-IsSound s drive v = record {
    unique = λ i j hi hj ep ed li lj.
        let bi = forget-live s.bio drive i in
        let bj = forget-live s.bio drive j in
        v.unique i j hi hj (sym bi.0 ∙ ep ∙ bj.0) (sym bi.1 ∙ ed ∙ bj.1) (bi.2 li) (bj.2 lj);
    bufs_ok = λ k h. elim (forget-cases s.bio drive k) [
      | inl e ↦
          subst (λ x. BufOk s.disk s.writes s.stored s.marked x (s.loaded k)) (sym e)
            (v.bufs_ok k h)
      | inr e ↦
          subst (λ x. BufOk s.disk s.writes s.stored s.marked x (s.loaded k)) (sym e)
            (dropped-BufOk s (s.bio.bufs k) (s.loaded k) (v.bufs_ok k h))
    ];
    apart = v.apart;
    held = v.held;
  }

  Step-IsSound : {s t : Sys Sector} → Step s t → IsSound s → IsSound t
  Step-IsSound {s} (looks drive page) v = look-IsSound s drive page v
  Step-IsSound {s} (loads k w h u busy) v = load-IsSound s k w h busy v
  Step-IsSound {s} (fetches k h busy all) v = fetch-IsSound s k h busy all v
  Step-IsSound {s} (fails k h busy) v = fail-IsSound s k h busy v
  Step-IsSound {s} (starts t p free small others) v = start-IsSound s t p free others v
  Step-IsSound {s} (stores t p x is lo hi) v = store-IsSound s t p x is lo hi v
  Step-IsSound {s} (patches t p is small all) v = patch-IsSound s t p is small all v
  Step-IsSound {s} (crosses t p free small) v = cross-IsSound s t p free v
  Step-IsSound {s} (gives_up t p is) v = give_up-IsSound s t p is v
  Step-IsSound {s} (bypasses d x a) v = bypass-IsSound s d x a v
  Step-IsSound {s} (forgets drive) v = forget-IsSound s drive v

  Reach-IsSound : {s t : Sys Sector} → IsSound s → Reach s t → IsSound t
  Reach-IsSound v here = v
  Reach-IsSound v (next r st) = Step-IsSound st (Reach-IsSound v r)

  -- In every state that the threads reach from bio_init, by lookups, fetches that end or fail, writes
  -- that the driver takes or gives up on after any of their sectors, patches, writes around the cache and
  -- invalidations, in any order, each sector of each valid page is the disk's. Three kinds of sectors are
  -- left out: those that a write in flight has put on the disk and has not patched yet; those of a write
  -- that began while one that overlaps it may have been in flight; and those that, at some time before,
  -- were put on the disk by a write given up on afterwards or by one around the cache. The pages are
  -- those of the 64 buffers, none of which was in flight at bio_init.
  pub boot-Agrees :
      (bio : Bio Sector) (disk : ℕ → ℕ → Sector) (s : Sys Sector)
      → ((k : ℕ) → k < 64 → (bio.bufs k).busy ≡ false)
      → Reach (boot bio disk) s
      → (k w : ℕ) → k < 64
      → w < 8
      → (s.bio.bufs k).valid ≡ true
      → Agrees s.disk s.writes s.stored s.marked (s.bio.bufs k) w
  boot-Agrees bio disk s idle r k w h u valid =
      ((Reach-IsSound (boot-IsSound bio disk idle) r).bufs_ok k h).agrees valid w u
