-- ===== src/Bio/Coherence/Fetch.antt =====
-- The steps of page_get keep the invariant.
use style9_os.Base.{
  ℕ, put, put_self, put-other, put-same, ◌+◌, ◌*◌, ◌<◌, ◌≡◌, refl, sym, ap, ◌∙◌, inl, inr, Bool,
  true, false, Option, none, Bool-cases, arith, ℕ_discrete, add64,
}
use style9_os.Bio.{
  no_page, Buf, Found, names, nbufs, claimed, touch, claim_buf, miss, looked_up, lookup, finish,
}
use style9_os.Bio.Scan.{
  is_live, Scanned, busy_at, valid_at, absent, scan-Scanned, Picked, in_flight, victim, pick-Picked,
  all_busy,
}
use style9_os.Bio.Patch.{IsAlone, unique-apply}
use style9_os.Bio.Patched.{names-true}
use style9_os.Bio.Concurrent.{Sys, loaded_after, look, load}
use style9_os.Bio.Coherence.{BufOk, IsSound, put-IsSound}

module _ {Sector : Type 0} where
  -- a buffer that is neither valid nor in flight claims nothing
  idle-BufOk :
      (s : Sys Sector) (b : Buf Sector) (l : ℕ → Bool)
      → b.busy ≡ false
      → b.valid ≡ false
      → BufOk s.disk s.writes s.stored s.marked b l
  idle-BufOk s b l i v = record {
    quiet = λ q. v;
    agrees = λ q. absurd (ground (arith, q, v));
    flight = λ q. absurd (ground (arith, q, i));
  }

  dead-IsAlone :
      (s : Sys Sector) (k : ℕ) (b : Buf Sector)
      → b.busy ≡ false
      → b.valid ≡ false
      → IsAlone s.bio.bufs k b
  dead-IsAlone s k b i v live = absurd (ground (arith, live, i, v))

  missed-IsSound :
      (s : Sys Sector) (drive page : ℕ) (o : Option ℕ)
      → IsSound s
      → ((k : ℕ) → k < 64 → names (s.bio.bufs k) drive page ≡ true → is_live (s.bio.bufs k) ≡ false)
      → Picked s.bio.bufs 64 o
      → IsSound (record s {
        bio = (miss s.bio drive page o).1;
        loaded = loaded_after (miss s.bio drive page o).0 s.loaded;
      })
  unfolding miss loaded_after claim_buf
  missed-IsSound s drive page _ v gone (in_flight all) = v
  missed-IsSound s drive page _ v gone (victim k w) =
      put-IsSound s _ k (claimed (s.bio.bufs k) drive page) (λ j. false) _ v refl refl
        (record {
          quiet = λ q. refl;
          agrees = λ q. absurd (ground (arith, q));
          flight = λ b f w u q. absurd (ground (arith, q));
        })
        (λ live j h ne lj ep ed.
          absurd (ground (arith, gone j h (names-true (s.bio.bufs j) drive page ep ed), lj)))

  looked_up-IsSound :
      (s : Sys Sector) (drive page : ℕ) (f : Found)
      → IsSound s
      → Scanned s.bio.bufs drive page 0 64 f
      → IsSound (record s {
        bio = (looked_up s.bio drive page f).1;
        loaded = loaded_after (looked_up s.bio drive page f).0 s.loaded;
      })
  unfolding looked_up loaded_after touch
  looked_up-IsSound s drive page _ v (busy_at k l u n b) = v
  looked_up-IsSound s drive page _ v (valid_at k l u n b q) =
      let ok = v.bufs_ok k u in
      let x : Buf Sector = record (s.bio.bufs k) { stamp = add64 s.bio.clock 1 } in
      put-IsSound s _ k x (s.loaded k) s.loaded v refl (put-same s.loaded k)
        (record { quiet = ok.quiet; agrees = ok.agrees; flight = ok.flight })
        (λ live j h ne lj ep ed. ne (unique-apply s.bio.bufs j k v.unique h u ep ed lj live))
  looked_up-IsSound s drive page _ v (absent gone) =
      missed-IsSound s drive page _ v (λ k h. gone k (omega arith) h)
        (pick-Picked nbufs s.bio.bufs 0 64 none refl (all_busy (λ k h. absurd (omega arith))))

  pub look-IsSound : (s : Sys Sector) (drive page : ℕ) → IsSound s → IsSound (look s drive page)
  unfolding look lookup
  look-IsSound s drive page v =
      looked_up-IsSound s drive page _ v (scan-Scanned nbufs s.bio.bufs drive page 0 64 refl)

  pub load-IsSound :
      (s : Sys Sector) (k w : ℕ)
      → k < 64
      → (s.bio.bufs k).busy ≡ true
      → IsSound s
      → IsSound (load s k w)
  unfolding load
  load-IsSound s k w h busy v =
      let b : Buf Sector = s.bio.bufs k in
      let ok = v.bufs_ok k h in
      let x : Sector = s.disk b.drive (b.page * 8 + w) in
      put-IsSound s _ k (record b { body = put b.body w x }) (put (s.loaded k) w true) _ v refl refl
        (record {
          quiet = ok.quiet;
          agrees = λ valid. absurd (ground (arith, ok.quiet busy, valid));
          flight = λ f fresh j u arrived. elim (ℕ_discrete j w) [
            | yes e ↦
                inl (put_self b.body w x j e ∙ ap (λ n. s.disk b.drive (b.page * 8 + n)) (sym e))
            | no ne ↦
                let same = put-other b.body w x j ne in
                elim (ok.flight f fresh j u (sym (put-other (s.loaded k) w true j ne) ∙ arrived)) [
                  | inl e ↦ inl (same ∙ e)
                  | inr a ↦ inr a
                ]
          ];
        })
        (λ live j u ne lj ep ed. ne (unique-apply s.bio.bufs j k v.unique u h ep ed lj live))

  pub fetch-IsSound :
      (s : Sys Sector) (k : ℕ)
      → k < 64
      → (s.bio.bufs k).busy ≡ true
      → ((w : ℕ) → w < 8 → s.loaded k w ≡ true)
      → IsSound s
      → IsSound (record s { bio = (finish s.bio k true).1 })
  unfolding finish
  fetch-IsSound s k h busy arrived v =
      let b : Buf Sector = s.bio.bufs k in
      let ok = v.bufs_ok k h in
      elim (Bool-cases b.stale) [
        | inl old ↦
            let x : Buf Sector = record b { busy = false; stale = false; page = no_page } in
            simp old (
              put-IsSound s _ k x (s.loaded k) s.loaded v refl (put-same s.loaded k)
                (idle-BufOk s x (s.loaded k) refl (ok.quiet busy))
                (dead-IsAlone s k x refl (ok.quiet busy)))
        | inr fresh ↦ simp fresh (
            put-IsSound s _ k
              (record b { busy = false; stale = false; stamp = add64 s.bio.clock 1; valid = true })
              (s.loaded k) s.loaded v refl (put-same s.loaded k)
              (record {
                quiet = λ q. absurd (ground (arith, q));
                agrees = λ q w u. ok.flight busy fresh w u (arrived w u);
                flight = λ q. absurd (ground (arith, q));
              })
              (λ live j u ne lj ep ed.
                ne (unique-apply s.bio.bufs j k v.unique u h ep ed lj (ground (arith, busy)))))
      ]

  pub fail-IsSound :
      (s : Sys Sector) (k : ℕ)
      → k < 64
      → (s.bio.bufs k).busy ≡ true
      → IsSound s
      → IsSound (record s { bio = (finish s.bio k false).1 })
  unfolding finish
  fail-IsSound s k h busy v =
      let b : Buf Sector = s.bio.bufs k in
      let off = (v.bufs_ok k h).quiet busy in
      let x : Buf Sector = record b { busy = false; page = no_page } in
      put-IsSound s _ k x (s.loaded k) s.loaded v refl (put-same s.loaded k)
        (idle-BufOk s x (s.loaded k) refl off) (dead-IsAlone s k x refl off)
