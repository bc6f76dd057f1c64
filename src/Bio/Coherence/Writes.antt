-- ===== src/Bio/Coherence/Writes.antt =====
-- A sector reaches the disk, by bio_write or around the cache: the invariant holds on.
use style9_os.Base.{
  ℕ, put, put_self, put-other, ◌+◌, ◌-◌, ◌*◌, ◌≤◌, ◌<◌, ◌≡◌, refl, sym, ap, ap₂, ◌∙◌, ◌≢◌, ◌⊎◌, inl,
  inr, true, false, ◌&&◌, some, ◌==◌, arith, ℕ_discrete,
}
use style9_os.Bio.{Buf}
use style9_os.Bio.Concurrent.{Write, Sys, set_sector, bypass, store}
use style9_os.Bio.Coherence.{Agrees, IsSound}
use style9_os.Bio.Coherence.Starts.{BufOk-map, some-inj}

sector-cases : (d x d' x' : ℕ) → ((d' ≡ d) × (x' ≡ x)) ⊎ ((d' ≢ d) ⊎ (x' ≢ x))
sector-cases d x d' x' = elim (ℕ_discrete d' d) [
  | no ne ↦ inr (inl ne)
  | yes e ↦ elim (ℕ_discrete x' x) [ no ne ↦ inr (inr ne) | yes f ↦ inl (e, f) ]
]

sector_self :
    {A : Type 0} (disk : ℕ → ℕ → A) (d x : ℕ) (a : A) (d' x' : ℕ)
    → d' ≡ d
    → x' ≡ x
    → set_sector disk d x a d' x' ≡ a
sector_self disk d x a d' x' e f =
    let here : (d' == d && x' == x) ≡ true = ground (arith, e, f) in rw here refl

sector-other :
    {A : Type 0} (disk : ℕ → ℕ → A) (d x : ℕ) (a : A) (d' x' : ℕ)
    → (d' ≢ d) ⊎ (x' ≢ x)
    → set_sector disk d x a d' x' ≡ disk d' x'
sector-other disk d x a d' x' o =
    let there : (d' == d && x' == x) ≡ false = ground (arith, o) in rw there refl

module _ {Sector : Type 0} where
  -- a sector that is on the disk stays there
  stored-keeps :
      (s : Sys Sector) (t x t' x' : ℕ)
      → s.stored t' x' ≡ true
      → put s.stored t (put (s.stored t) x true) t' x' ≡ true
  stored-keeps s t x t' x' h = elim (ℕ_discrete t' t) [
    | no ne ↦ ap (λ f. f x') (put-other s.stored t (put (s.stored t) x true) t' ne) ∙ h
    | yes e ↦
        ap (λ f. f x') (put_self s.stored t (put (s.stored t) x true) t' e)
        ∙ elim (ℕ_discrete x' x) [
          | yes f ↦ put_self (s.stored t) x true x' f
          | no nf ↦ put-other (s.stored t) x true x' nf ∙ ap (λ n. s.stored n x') (sym e) ∙ h
        ]
  ]

  stored-before :
      (s : Sys Sector) (t x t' x' : ℕ)
      → (t' ≢ t) ⊎ (x' ≢ x)
      → put s.stored t (put (s.stored t) x true) t' x' ≡ true
      → s.stored t' x' ≡ true
  stored-before s t x t' x' o h = elim (ℕ_discrete t' t) [
    | no ne ↦ sym (ap (λ f. f x') (put-other s.stored t (put (s.stored t) x true) t' ne)) ∙ h
    | yes e ↦ elim (ℕ_discrete x' x) [
      | yes f ↦ elim o [ inl ne ↦ absurd (ne e) | inr ne ↦ absurd (ne f) ]
      | no nf ↦
          ap (λ n. s.stored n x') e
          ∙ sym (put-other (s.stored t) x true x' nf)
          ∙ sym (ap (λ f. f x') (put_self s.stored t (put (s.stored t) x true) t' e))
          ∙ h
    ]
  ]

  store-Agrees :
      (s : Sys Sector) (t : ℕ) (p : Write Sector) (x : ℕ)
      → s.writes t ≡ some p
      → p.lba ≤ x
      → x < p.lba + p.nsec
      → (b : Buf Sector) (w : ℕ) → Agrees s.disk s.writes s.stored s.marked b w
      → Agrees (store s t p x).disk s.writes (store s t p x).stored s.marked b w
  unfolding store
  store-Agrees s t p x is lo hi b w (inr (inr m)) = inr (inr m)
  store-Agrees s t p x is lo hi b w (inr (inl (t', q, is', h, st))) =
      inr (inl (t', q, is', h, stored-keeps s t x t' (b.page * 8 + w) st))
  store-Agrees s t p x is lo hi b w (inl e) =
      elim (sector-cases p.drive x b.drive (b.page * 8 + w)) [
        | inr other ↦ inl (
            e
            ∙ sym (
                sector-other s.disk p.drive x (p.bytes (x - p.lba)) b.drive (b.page * 8 + w) other))
        | inl (d, f) ↦ inr (
            inl (
              t,
              p,
              is,
              (d, omega arith, omega arith),
              ap (λ g. g (b.page * 8 + w)) (put_self s.stored t (put (s.stored t) x true) t refl)
                  ∙ put_self (s.stored t) x true (b.page * 8 + w) f,
            ))
      ]

  pub store-IsSound :
      (s : Sys Sector) (t : ℕ) (p : Write Sector) (x : ℕ)
      → s.writes t ≡ some p
      → p.lba ≤ x
      → x < p.lba + p.nsec
      → IsSound s
      → IsSound (store s t p x)
  unfolding store
  store-IsSound s t p x is lo hi v = record {
    unique = v.unique;
    bufs_ok = λ k h.
        BufOk-map (λ w u a. store-Agrees s t p x is lo hi (s.bio.bufs k) w a) (v.bufs_ok k h);
    apart = v.apart;
    held = λ t' q y e lo' hi' clean st. elim (ℕ_discrete t' t) [
      | yes at ↦
          let q_is : p ≡ q = some-inj (sym is ∙ ap s.writes (sym at) ∙ e) in
          elim (sector-cases p.drive x q.drive y) [
            | inl (d, f) ↦
                sector_self s.disk p.drive x (p.bytes (x - p.lba)) q.drive y d f
                ∙ ap₂ (λ r n. r.bytes (n - r.lba)) q_is (sym f)
            | inr other ↦
                sector-other s.disk p.drive x (p.bytes (x - p.lba)) q.drive y other
                ∙ v.held t' q y e lo' hi' clean (
                    stored-before s t x t' y
                      (elim other [
                        | inl ne ↦ absurd (ne (sym (ap (λ r. r.drive) q_is)))
                        | inr ne ↦ inr ne
                      ])
                      st)
          ]
      | no ne ↦
          sector-other s.disk p.drive x (p.bytes (x - p.lba)) q.drive y
            (elim (sector-cases p.drive x q.drive y) [
              | inr other ↦ other
              | inl (d, f) ↦ absurd (
                  v.apart t' t q p e is ne q.drive y clean (refl, lo', hi')
                    (d, omega arith, omega arith))
            ])
          ∙ v.held t' q y e lo' hi' clean (stored-before s t x t' y (inl ne) st)
    ];
  }

  -- a sector is written around the cache
  pub bypass-IsSound :
      (s : Sys Sector) (d x : ℕ) (a : Sector) → IsSound s → IsSound (bypass s d x a)
  unfolding bypass
  bypass-IsSound s d x a v = record {
    unique = v.unique;
    bufs_ok = λ k h.
        BufOk-map {disk = s.disk} {writes = s.writes} {stored = s.stored} {marked = s.marked}
          (λ w u agrees.
            elim (sector-cases d x (s.bio.bufs k).drive ((s.bio.bufs k).page * 8 + w)) [
              | inl (e, f) ↦ inr (inr (sector_self s.marked d x true _ _ e f))
              | inr other ↦ elim agrees [
                | inl e ↦ inl (e ∙ sym (sector-other s.disk d x a _ _ other))
                | inr (inl ahead) ↦ inr (inl ahead)
                | inr (inr m) ↦ inr (inr (sector-other s.marked d x true _ _ other ∙ m))
              ]
            ])
          (v.bufs_ok k h);
    apart = λ t1 t2 p1 p2 e1 e2 ne d' x' clean.
        v.apart t1 t2 p1 p2 e1 e2 ne d' x'
          (sym (sector-other s.marked d x true d' x' (elsewhere d' x' clean)) ∙ clean);
    held = λ t q y e lo hi clean st.
        sector-other s.disk d x a q.drive y (elsewhere q.drive y clean)
        ∙ v.held t q y e lo hi
            (sym (sector-other s.marked d x true q.drive y (elsewhere q.drive y clean)) ∙ clean) st;
  }
    where
      elsewhere : (d' x' : ℕ) → set_sector s.marked d x true d' x' ≡ false → (d' ≢ d) ⊎ (x' ≢ x)
      elsewhere d' x' clean = elim (sector-cases d x d' x') [
        | inr other ↦ other
        | inl (e, f) ↦ absurd (cc (sym clean ∙ sector_self s.marked d x true d' x' e f))
      ]
