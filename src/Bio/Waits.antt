-- ===== src/Bio/Waits.antt =====
-- What a lookup that has to wait waits for, and what the end of that fetch opens.
use style9_os.Base.{
  ℕ, ◌<◌, ◌≡◌, refl, sym, subst, ap, ◌∙◌, ◌≢◌, inl, inr, Bool, true, false, Option, none, ◌==◌,
  Bool-cases, arith, ℕ_discrete,
}
use style9_os.Bio.{Bio, Found, wait, names, nbufs, miss, looked_up, lookup, finish}
use style9_os.Bio.Scan.{
  is_live, Scanned, busy_at, valid_at, absent, scan-Scanned, Picked, in_flight, victim, pick-Picked,
  all_busy,
}
use style9_os.Bio.Patch.{IsUnique, unique-apply}
use style9_os.Bio.Patched.{names-eq}

module _ {Sector : Type 0} where
  miss-wait :
      (bio : Bio Sector) (drive page : ℕ) (o : Option ℕ)
      → (k : ℕ) → k < 64
      → (bio.bufs k).busy ≡ false
      → Picked bio.bufs 64 o
      → (miss bio drive page o).0 ≢ wait
  unfolding miss
  miss-wait bio drive page _ k h idle (in_flight all) = absurd (ground (arith, all k h, idle))
  miss-wait bio drive page _ k h idle (victim v w) = λ e. cc e

  looked_up-ne-wait :
      (bio : Bio Sector) (drive page k : ℕ)
      → k < 64
      → (bio.bufs k).busy ≡ false
      → ((j : ℕ) → j < 64 → names (bio.bufs j) drive page ≡ true → (bio.bufs j).busy ≡ false)
      → (f : Found) → Scanned bio.bufs drive page 0 64 f
      → (looked_up bio drive page f).0 ≢ wait
  unfolding looked_up
  looked_up-ne-wait bio drive page k h idle none_busy _ (busy_at j l u n b) =
      absurd (ground (arith, none_busy j u n, b))
  looked_up-ne-wait bio drive page k h idle none_busy _ (valid_at j l u n b v) = λ e. cc e
  looked_up-ne-wait bio drive page k h idle none_busy _ (absent gone) =
      miss-wait bio drive page _ k h idle
        (pick-Picked nbufs bio.bufs 0 64 none refl (all_busy (λ j l. absurd (omega arith))))

  -- With an idle buffer, and no fetch of the page in flight, a lookup does not wait.
  lookup-ne-wait :
      (bio : Bio Sector) (drive page k : ℕ)
      → k < 64
      → (bio.bufs k).busy ≡ false
      → ((j : ℕ) → j < 64 → names (bio.bufs j) drive page ≡ true → (bio.bufs j).busy ≡ false)
      → (lookup bio drive page).0 ≢ wait
  unfolding lookup
  lookup-ne-wait bio drive page k h idle none_busy =
      looked_up-ne-wait bio drive page k h idle none_busy _
        (scan-Scanned nbufs bio.bufs drive page 0 64 refl)

  -- What a wait is for: the fetch of the page, or, with every buffer in flight, any fetch.
  data WaitsFor (bio : Bio Sector) (drive page k : ℕ) : Type 0 where
    its_page :
        k < 64
        → (bio.bufs k).busy ≡ true
        → names (bio.bufs k) drive page ≡ true
        → WaitsFor bio drive page k
    a_buffer :
        k < 64
        → ((j : ℕ) → j < 64 → (bio.bufs j).busy ≡ true)
        → ((j : ℕ) → j < 64 → names (bio.bufs j) drive page ≢ true)
        → WaitsFor bio drive page k

  miss-WaitsFor :
      (bio : Bio Sector) (drive page : ℕ) (o : Option ℕ)
      → ((j : ℕ) → j < 64 → names (bio.bufs j) drive page ≡ true → is_live (bio.bufs j) ≡ false)
      → Picked bio.bufs 64 o
      → (miss bio drive page o).0 ≡ wait
      → (k : ℕ) × WaitsFor bio drive page k
  unfolding miss
  miss-WaitsFor bio drive page _ gone (in_flight all) e =
      (0, a_buffer (omega arith) all (λ j h n. ground (arith, gone j h n, all j h)))
  miss-WaitsFor bio drive page _ gone (victim v w) e = absurd (cc e)

  looked_up-WaitsFor :
      (bio : Bio Sector) (drive page : ℕ) (f : Found)
      → Scanned bio.bufs drive page 0 64 f
      → (looked_up bio drive page f).0 ≡ wait
      → (k : ℕ) × WaitsFor bio drive page k
  unfolding looked_up
  looked_up-WaitsFor bio drive page _ (busy_at j l u n b) e = (j, its_page u b n)
  looked_up-WaitsFor bio drive page _ (valid_at j l u n b v) e = absurd (cc e)
  looked_up-WaitsFor bio drive page _ (absent gone) e =
      miss-WaitsFor bio drive page _ (λ j h. gone j (omega arith) h)
        (pick-Picked nbufs bio.bufs 0 64 none refl (all_busy (λ j l. absurd (omega arith)))) e

  WaitsFor-busy :
      {bio : Bio Sector} {drive page k : ℕ}
      → WaitsFor bio drive page k
      → (k < 64) × ((bio.bufs k).busy ≡ true)
  WaitsFor-busy (its_page h b n) = (h, b)
  WaitsFor-busy {k = k} (a_buffer h all other) = (h, all k h)

  other-idle :
      (bio : Bio Sector) (drive page k j : ℕ)
      → IsUnique bio.bufs
      → WaitsFor bio drive page k
      → j < 64
      → j ≢ k
      → names (bio.bufs j) drive page ≡ true
      → (bio.bufs j).busy ≡ false
  other-idle bio drive page k j u (a_buffer h all other) hj ne n = absurd (other j hj n)
  other-idle bio drive page k j u (its_page h b m) hj ne n = elim (Bool-cases (bio.bufs j).busy) [
    | inr idle ↦ idle
    | inl busy ↦
        let at_j = names-eq (bio.bufs j) drive page n in
        let at_k = names-eq (bio.bufs k) drive page m in
        absurd (
          ne (
            unique-apply bio.bufs j k u hj h (at_j.0 ∙ sym at_k.0) (at_j.1 ∙ sym at_k.1)
              (ground (arith, busy)) (ground (arith, b))))
  ]

  finish_self : (bio : Bio Sector) (k : ℕ) (ok : Bool) → ((finish bio k ok).1.bufs k).busy ≡ false
  unfolding finish
  finish_self bio k ok = let self : (k == k) ≡ true = ground arith in ground arith

  finish-other :
      (bio : Bio Sector) (k : ℕ) (ok : Bool) (j : ℕ)
      → j ≢ k
      → (finish bio k ok).1.bufs j ≡ bio.bufs j
  unfolding finish
  finish-other bio k ok j ne =
      let there : (j == k) ≡ false = ground (arith, ne) in
      elim (Bool-cases ok) [
        | inr bad ↦ simp (bad, there)
        | inl good ↦ elim (Bool-cases (bio.bufs k).stale) [
          | inl old ↦ simp (good, old, there)
          | inr fresh ↦ simp (good, fresh, there)
        ]
      ]

  finish-ne-wait :
      (bio : Bio Sector) (drive page k : ℕ) (ok : Bool)
      → IsUnique bio.bufs
      → WaitsFor bio drive page k
      → (lookup (finish bio k ok).1 drive page).0 ≢ wait
  finish-ne-wait bio drive page k ok u w =
      lookup-ne-wait (finish bio k ok).1 drive page k (WaitsFor-busy w).0 (finish_self bio k ok)
        (λ j h n. elim (ℕ_discrete j k) [
          | yes e ↦
              subst (λ x. ((finish bio k ok).1.bufs x).busy ≡ false) (sym e) (finish_self bio k ok)
          | no ne ↦
              let same = finish-other bio k ok j ne in
              ap (λ b. b.busy) same
              ∙ other-idle bio drive page k j u w h ne (ap (λ b. names b drive page) (sym same) ∙ n)
        ])

  -- Where no page is in two live buffers, a lookup that has to wait waits for a fetch in flight, and
  -- in the state that the end of that fetch leaves, with its bytes or with an error, a lookup of the
  -- page does not wait. It is the first lookup after that state of which this is said: another
  -- thread, also the one that has fetched, may look first and claim the page or the buffer again.
  pub wait-ends :
      (bio : Bio Sector) (drive page : ℕ)
      → IsUnique bio.bufs
      → (lookup bio drive page).0 ≡ wait
      → (k : ℕ) × (k < 64)
        × ((bio.bufs k).busy ≡ true)
        × ((ok : Bool) → (lookup (finish bio k ok).1 drive page).0 ≢ wait)
  unfolding lookup
  wait-ends bio drive page u e =
      let (k, w) =
        looked_up-WaitsFor bio drive page _ (scan-Scanned nbufs bio.bufs drive page 0 64 refl) e in
      (k, (WaitsFor-busy w).0, (WaitsFor-busy w).1, λ ok. finish-ne-wait bio drive page k ok u w)
