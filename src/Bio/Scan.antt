-- ===== src/Bio/Scan.antt =====
-- The two loops of page_get: what a lookup finds, and which buffer a miss claims.
use style9_os.Base.{
  ℕ, zero, suc, ◌+◌, ◌≤◌, ◌<◌, ◌≡◌, sym, subst, inl, inr, Bool, true, false, ◌||◌, Option, none,
  some, Bool-cases, arith, ℕ_discrete,
}
use style9_os.Bio.{Buf, Found, at_busy, at_valid, nowhere, names, scan, pick, better}

module _ {Sector : Type 0} where
  -- A buffer that a fetch or a page is in.
  abbrev pub is_live : Buf Sector → Bool
  is_live b = b.busy || b.valid

  -- What the first loop answers from `i` on.
  pub data Scanned (bufs : ℕ → Buf Sector) (drive page i stop : ℕ) : Found → Type 0 where
    busy_at :
        (k : ℕ)
        → i ≤ k
        → k < stop
        → names (bufs k) drive page ≡ true
        → (bufs k).busy ≡ true
        → Scanned bufs drive page i stop (at_busy k)
    valid_at :
        (k : ℕ)
        → i ≤ k
        → k < stop
        → names (bufs k) drive page ≡ true
        → (bufs k).busy ≡ false
        → (bufs k).valid ≡ true
        → Scanned bufs drive page i stop (at_valid k)
    absent :
        ((k : ℕ) → i ≤ k → k < stop → names (bufs k) drive page ≡ true → is_live (bufs k) ≡ false)
        → Scanned bufs drive page i stop nowhere

  Scanned-later :
      (bufs : ℕ → Buf Sector) (drive page i stop : ℕ) (f : Found)
      → (names (bufs i) drive page ≡ true → is_live (bufs i) ≡ false)
      → Scanned bufs drive page (suc i) stop f
      → Scanned bufs drive page i stop f
  Scanned-later bufs drive page i stop _ dead (busy_at k l u n b) = busy_at k (omega arith) u n b
  Scanned-later bufs drive page i stop _ dead (valid_at k l u n b v) =
      valid_at k (omega arith) u n b v
  Scanned-later bufs drive page i stop _ dead (absent h) = absent (λ k l u n.
      elim (ℕ_discrete k i) [
        | yes e ↦
            subst (λ j. is_live (bufs j) ≡ false) (sym e)
              (dead (subst (λ j. names (bufs j) drive page ≡ true) e n))
        | no ne ↦ h k (omega arith) u n
      ])

  pub scan-Scanned :
      (left : ℕ) (bufs : ℕ → Buf Sector) (drive page i stop : ℕ)
      → i + left ≡ stop
      → Scanned bufs drive page i stop (scan left bufs drive page i)
  unfolding scan
  scan-Scanned zero bufs drive page i stop e = absent (λ k l u n. absurd (omega arith))
  scan-Scanned (suc left) bufs drive page i stop e =
      let rest = scan-Scanned left bufs drive page (suc i) stop (omega arith) in
      elim (Bool-cases (names (bufs i) drive page)) [
        | inr other ↦
            simp other
              (Scanned-later bufs drive page i stop _ (λ n. absurd (ground (arith, other, n))) rest)
        | inl named ↦ elim (Bool-cases (bufs i).busy) [
          | inl b ↦ simp (named, b) (busy_at i (omega arith) (omega arith) named b)
          | inr b ↦ elim (Bool-cases (bufs i).valid) [
            | inl v ↦ simp (named, b, v) (valid_at i (omega arith) (omega arith) named b v)
            | inr v ↦
                simp (named, b, v)
                  (Scanned-later bufs drive page i stop _ (λ n. ground (arith, b, v)) rest)
          ]
        ]
      ]

  -- The buffer that a miss takes is free, or the least recently used of those that are not busy.
  pub record Victim (bufs : ℕ → Buf Sector) (stop v : ℕ) : Type 0 where
    pub inside : v < stop
    pub idle : (bufs v).busy ≡ false
    pub oldest :
        (bufs v).valid ≡ true
        → (k : ℕ) → k < stop
        → (bufs k).busy ≡ false
        → ((bufs k).valid ≡ true) × ((bufs v).stamp ≤ (bufs k).stamp)

  -- the choice so far, over the buffers before `i`
  pub data Best (bufs : ℕ → Buf Sector) (i : ℕ) : Option ℕ → Type 0 where
    all_busy : ((k : ℕ) → k < i → (bufs k).busy ≡ true) → Best bufs i none
    so_far : (v : ℕ) → (bufs v).valid ≡ true → Victim bufs i v → Best bufs i (some v)

  -- What the second loop answers.
  pub data Picked (bufs : ℕ → Buf Sector) (stop : ℕ) : Option ℕ → Type 0 where
    in_flight : ((k : ℕ) → k < stop → (bufs k).busy ≡ true) → Picked bufs stop none
    victim : (v : ℕ) → Victim bufs stop v → Picked bufs stop (some v)

  Best-skip :
      (bufs : ℕ → Buf Sector) (i : ℕ) (best : Option ℕ)
      → (bufs i).busy ≡ true
      → Best bufs i best
      → Best bufs (suc i) best
  Best-skip bufs i _ b (all_busy h) = all_busy (λ k l. elim (ℕ_discrete k i) [
    | yes e ↦ subst (λ j. (bufs j).busy ≡ true) (sym e) b
    | no ne ↦ h k (omega arith)
  ])
  Best-skip bufs i _ b (so_far v val w) = so_far v val (record {
    inside = omega (arith, w.inside);
    idle = w.idle;
    oldest = λ q k l idle. elim (ℕ_discrete k i) [
      | yes e ↦ absurd (ground (arith, subst (λ j. (bufs j).busy ≡ false) e idle, b))
      | no ne ↦ w.oldest q k (omega arith) idle
    ];
  })

  Best-keep :
      (bufs : ℕ → Buf Sector) (i : ℕ) (best : Option ℕ)
      → (bufs i).valid ≡ true
      → better bufs i best ≡ false
      → Best bufs i best
      → Best bufs (suc i) best
  unfolding better
  Best-keep bufs i _ u worse (all_busy h) = absurd (ground (arith, worse))
  Best-keep bufs i _ u worse (so_far v val w) = so_far v val (record {
    inside = omega (arith, w.inside);
    idle = w.idle;
    oldest = λ q k l idle. elim (ℕ_discrete k i) [
      | yes e ↦
          subst (λ j. ((bufs j).valid ≡ true) × ((bufs v).stamp ≤ (bufs j).stamp)) (sym e)
            (u, ground (arith, worse))
      | no ne ↦ w.oldest q k (omega arith) idle
    ];
  })

  Best-take :
      (bufs : ℕ → Buf Sector) (i : ℕ) (best : Option ℕ)
      → (bufs i).busy ≡ false
      → (bufs i).valid ≡ true
      → better bufs i best ≡ true
      → Best bufs i best
      → Best bufs (suc i) (some i)
  unfolding better
  Best-take bufs i _ b u wins (all_busy h) = so_far i u (record {
    inside = omega arith;
    idle = b;
    oldest = λ q k l idle. elim (ℕ_discrete k i) [
      | yes e ↦
          subst (λ j. ((bufs j).valid ≡ true) × ((bufs i).stamp ≤ (bufs j).stamp)) (sym e)
            (u, omega arith)
      | no ne ↦ absurd (ground (arith, h k (omega arith), idle))
    ];
  })
  Best-take bufs i _ b u wins (so_far v val w) = so_far i u (record {
    inside = omega arith;
    idle = b;
    oldest = λ q k l idle. elim (ℕ_discrete k i) [
      | yes e ↦
          subst (λ j. ((bufs j).valid ≡ true) × ((bufs i).stamp ≤ (bufs j).stamp)) (sym e)
            (u, omega arith)
      | no ne ↦ let o = w.oldest val k (omega arith) idle in (o.0, ground (arith, wins, o.1))
    ];
  })

  Best-Picked :
      (bufs : ℕ → Buf Sector) (stop : ℕ) (best : Option ℕ)
      → Best bufs stop best
      → Picked bufs stop best
  Best-Picked bufs stop _ (all_busy h) = in_flight h
  Best-Picked bufs stop _ (so_far v val w) = victim v w

  pub pick-Picked :
      (left : ℕ) (bufs : ℕ → Buf Sector) (i stop : ℕ) (best : Option ℕ)
      → i + left ≡ stop
      → Best bufs i best
      → Picked bufs stop (pick left bufs i best)
  unfolding pick
  pick-Picked zero bufs i stop best e b =
      subst (λ n. Picked bufs n best) (omega arith) (Best-Picked bufs i best b)
  pick-Picked (suc left) bufs i stop best e b = elim (Bool-cases (bufs i).busy) [
    | inl busy ↦
        simp busy
          (pick-Picked left bufs (suc i) stop best (omega arith) (Best-skip bufs i best busy b))
    | inr idle ↦ elim (Bool-cases (bufs i).valid) [
      | inr free ↦
          simp (idle, free)
            (victim i (record {
              inside = omega arith;
              idle = idle;
              oldest = λ q. absurd (ground (arith, free, q));
            }))
      | inl used ↦ elim (Bool-cases (better bufs i best)) [
        | inl wins ↦
            simp (idle, used, wins)
              (pick-Picked left bufs (suc i) stop (some i) (omega arith)
                (Best-take bufs i best idle used wins b))
        | inr loses ↦
            simp (idle, used, loses)
              (pick-Picked left bufs (suc i) stop best (omega arith)
                (Best-keep bufs i best used loses b))
      ]
    ]
  ]
