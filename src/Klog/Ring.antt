-- ===== src/Klog/Ring.antt =====
-- The ring as a log: a snapshot gives the newest lines, oldest first.
use style9_os.Base.{
  ℕ, zero, suc, ◌+◌, ◌-◌, ◌%◌, ◌≤◌, ◌<◌, ◌≡◌, refl, ap, ap₂, ◌∙◌, ◌≢◌, inl, inr, Option, List, [],
  ◌∷◌, ltb, ◌==◌, if◌then◌else◌, Bool-cases, arith, length, get_or, set, length-set,
  get_or-set_self, get_or-set_ne, min,
}
use style9_os.Klog.{Klog, Line, klog, line, append, copy_out, snapshot_tail, empty_line}

-- The ring is as long as its array, and its head is a slot.
pub record IsRing (k : Klog) : Type 0 where
  pub slots : length k.ring ≡ 128
  pub head_in : k.head < 128
  pub count_in : k.count ≤ 128

append-IsRing : (k : Klog) (l : Line) → IsRing k → IsRing (append k l)
unfolding append
append-IsRing k l v = record {
  slots = length-set k.ring k.head l ∙ v.slots;
  head_in = omega arith;
  count_in = ground (arith, v.count_in);
}

-- the line `back` lines before the next one to write
pub nth_back : Klog → ℕ → Line
nth_back k back = get_or k.ring ((k.head + 128 - back) % 128) empty_line

-- Writing a line leaves the ones before it one place further back.
nth_back-append :
    (k : Klog) (l : Line) (back : ℕ)
    → IsRing k
    → 0 < back
    → back < 128
    → nth_back (append k l) (suc back) ≡ nth_back k back
unfolding nth_back append
nth_back-append k l back v pos small =
    let same : ((k.head + 1) % 128 + 128 - suc back) % 128 ≡ (k.head + 128 - back) % 128 =
      omega (arith, v.head_in) in
    let other : k.head ≢ (k.head + 128 - back) % 128 = omega (arith, v.head_in) in
    ap (λ i. get_or (set k.ring k.head l) i empty_line) same
    ∙ get_or-set_ne k.ring k.head ((k.head + 128 - back) % 128) l empty_line other

nth_back_newest : (k : Klog) (l : Line) → IsRing k → nth_back (append k l) 1 ≡ l
unfolding nth_back append
nth_back_newest k l v =
    let same : ((k.head + 1) % 128 + 128 - 1) % 128 ≡ k.head = omega (arith, v.head_in) in
    ap (λ i. get_or (set k.ring k.head l) i empty_line) same
    ∙ get_or-set_self k.ring k.head l empty_line (omega (arith, v.slots, v.head_in))

-- the `n` lines written last, oldest first
tail_from : Klog → ℕ → List Line
tail_from k zero = []
tail_from k (suc n) = nth_back k (suc n) ∷ tail_from k n

copy_out-tail_from :
    (n : ℕ) (k : Klog) (first i : ℕ)
    → k.head < 128
    → n ≤ 128
    → i + n ≤ 128
    → first ≡ (k.head + 128 - (i + n)) % 128
    → copy_out n k.ring first i ≡ tail_from k n
unfolding copy_out tail_from nth_back
copy_out-tail_from zero k first i h s b e = refl
copy_out-tail_from (suc n) k first i h s b e =
    let slot : (first + i) % 128 ≡ (k.head + 128 - suc n) % 128 = omega (arith, e) in
    ap₂ (λ x xs. get_or k.ring x empty_line ∷ xs) slot
      (copy_out-tail_from n k first (i + 1) h (omega arith) (omega arith) (omega (arith, e)))

-- The lines written so far, newest first, of which the ring has the first 128.
pub record IsLog (k : Klog) (log : List Line) : Type 0 where
  pub ring : IsRing k
  pub counted : k.count ≡ (if ltb (length log) 128 then length log else 128)
  pub lines : (i : ℕ) → i < k.count → nth_back k (suc i) ≡ get_or log i empty_line

append_lines :
    (k : Klog) (l : Line) (log : List Line)
    → IsLog k log
    → (i : ℕ) → i < (append k l).count
    → nth_back (append k l) (suc i) ≡ get_or (l ∷ log) i empty_line
append_lines k l log v zero h = nth_back_newest k l v.ring
append_lines k l log v (suc i) h =
    let older : i < k.count = unfold append in ground (arith, h, v.ring.count_in) in
    nth_back-append k l (suc i) v.ring (omega arith)
      (unfold append in ground (arith, h, v.ring.count_in))
    ∙ v.lines i older

-- Writing a line puts it at the front of the log.
append-IsLog : (k : Klog) (l : Line) (log : List Line) → IsLog k log → IsLog (append k l) (l ∷ log)
append-IsLog k l log v = record {
  ring = append-IsRing k l v.ring;
  counted = unfold append in ground (arith, v.counted);
  lines = append_lines k l log v;
}

-- klog puts its line at the front of the log that a ring stands for, and keeps the ring in order,
-- whatever its arguments.
pub klog-IsLog :
    (k : Klog) (log : List Line) (now level : ℕ) (src text : Option (List ℕ))
    → IsLog k log
    → IsLog (klog k now level src text) (line k now level src text ∷ log)
unfolding klog
klog-IsLog k log now level src text v = append-IsLog k (line k now level src text) log v

-- the `n` newest lines of a log, oldest first
pub newest : List Line → ℕ → List Line
newest log zero = []
newest log (suc n) = get_or log n empty_line ∷ newest log n

tail_from-newest :
    (n : ℕ) (k : Klog) (log : List Line) → IsLog k log → n ≤ k.count → tail_from k n ≡ newest log n
unfolding tail_from newest
tail_from-newest zero k log v h = refl
tail_from-newest (suc n) k log v h =
    ap₂ (λ x xs. x ∷ xs) (v.lines n (omega arith)) (tail_from-newest n k log v (omega arith))

-- A snapshot of the ring gives the newest lines of the log that it stands for, oldest first: as
-- many as there are, as the ring keeps and as the caller has room for.
pub snapshot_tail-newest :
    (k : Klog) (log : List Line) (max : ℕ)
    → IsLog k log
    → snapshot_tail k max ≡ newest log (min (length log) (min 128 max))
unfolding snapshot_tail
snapshot_tail-newest k log max v = elim (Bool-cases (max == 0)) [
  | inl none_wanted ↦
      let nothing : min (length log) (min 128 max) ≡ 0 = ground (arith, none_wanted) in
      rw (none_wanted, nothing) (unfold newest in refl)
  | inr wanted ↦
      let n : ℕ = if ltb k.count max then k.count else max in
      let same : (if ltb k.count max then k.count else max) ≡ min (length log) (min 128 max) =
        ground (arith, v.counted) in
      rw (wanted, same)
        (copy_out-tail_from (min (length log) (min 128 max)) k _ 0 v.ring.head_in (omega arith)
            (omega arith) (omega (arith, v.ring.head_in))
          ∙ tail_from-newest (min (length log) (min 128 max)) k log v (ground (arith, v.counted)))
]
