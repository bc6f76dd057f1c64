-- ===== src/Bio/Tests.antt =====
-- The block cache on concrete inputs, over a driver that keeps its sectors in memory.
use style9_os.Base.{
  ℕ, zero, suc, ◌+◌, ◌-◌, ◌≤◌, ◌<◌, ◌≡◌, refl, ap, ◌*◌, ◌≢◌, ◌⊎◌, Bool, true, false, ◌&&◌, Option,
  none, some, ltb, leb, ◌==◌, if◌then◌else◌, arith,
}
use style9_os.Bio.{
  Driver, Bio, wait, init, with_buf, claimed, scan, pick, better, looked_up, miss, lookup,
  claim_buf, fill, finish, copy,
}
use style9_os.Bio.Patch.{IsUnique}
use style9_os.Bio.Serial.{fetch, get_with, page_get, read_from, read, write}
use style9_os.Bio.Page.{IsFaithful, init-IsCoherent}
use style9_os.Bio.Transparent.{Answered, read-Answered}
use style9_os.Bio.Writing.{read-write}
use style9_os.Bio.Concurrent.{Sys, Reach, here, next, looks, loads, fetches, look, load}
use style9_os.Bio.Coherence.{Agrees}
use style9_os.Bio.Coherence.Reachable.{boot, boot-Agrees}
use style9_os.Bio.Waits.{wait-ends}

abbrev Sectors : Type 0
Sectors = ℕ → ℕ → ℕ

abbrev memory : Driver Sectors ℕ
memory = record {
  kread = λ disk d lba n out. (0, λ j. if ltb j n then disk d (lba + j) else out j);
  kwrite = λ disk d lba n bytes.
      (0, λ e s. if (e == d && leb lba s) && ltb s (lba + n) then bytes (s - lba) else disk e s);
  ksync = λ disk d. (0, disk);
}

memory-IsFaithful : IsFaithful memory (λ disk. disk)
memory-IsFaithful = record {
  read_ok = λ disk d lba n out e j h. ground arith;
  write_ok = λ disk d lba n bytes e j h.
      let inside : ((d == d && leb lba (lba + j)) && ltb (lba + j) (lba + n)) ≡ true =
        ground arith in
      let at : lba + j - lba ≡ j = omega arith in rw inside (ap bytes at);
  write_rest = λ disk d lba n bytes e d' s o. ground (arith, o);
}

abbrev blank : Bio ℕ
blank = record {
  bufs = λ k. record {
    page = 0;
    stamp = 0;
    body = λ w. 0;
    drive = 0;
    valid = false;
    busy = false;
    stale = false;
  };
  clock = 0;
  ready = false;
  n_req = 0;
  n_hit = 0;
  n_miss = 0;
  n_evict = 0;
  n_write = 0;
  n_patch = 0;
  n_sync = 0;
}

abbrev numbered : Sectors
numbered d s = d * 1000 + s

-- the sector at `j` of the buffer that a read answers
abbrev sector_of : Option (ℕ × (ℕ → ℕ) × Bio ℕ) → ℕ → Option ℕ
sector_of none j = none
sector_of (some (rv, out, bio)) j = some (out j)

-- twelve sectors from 5 on, over three pages
read_three_pages :
    sector_of (read memory numbered 12 (init true blank) 0 5 12 (λ j. 0)) 11 ≡ some 16
unfolding read read_from page_get get_with fetch lookup looked_up scan pick better miss claim_buf
    fill finish copy init
read_three_pages = refl

read_short : sector_of (read memory numbered 3 (init true blank) 0 5 2 (λ j. 7)) 2 ≡ some 7
unfolding read read_from page_get get_with fetch lookup looked_up scan pick better miss claim_buf
    fill finish copy init
read_short = refl

cold-ready : (init true blank).ready ≡ true
unfolding init
cold-ready = refl

read-Answered_example :
    Answered memory
      (λ disk. disk)
      memory-IsFaithful
      numbered
      0
      5
      0
      12
      (λ j. 0)
      (read memory numbered 12 (init true blank) 0 5 12 (λ j. 0))
read-Answered_example =
    read-Answered memory (λ disk. disk) memory-IsFaithful numbered 12 (init true blank) 0 5 12
      (λ j. 0) (omega arith) (omega arith) cold-ready (init-IsCoherent blank numbered (λ k h. refl))

write_taken : (write memory numbered (init true blank) 0 5 12 (λ j. 9)).0 ≡ 0
unfolding write init
write_taken = refl

read-write_example :
    (o : ℕ × (ℕ → ℕ) × Bio ℕ) × (read memory
        (write memory numbered (init true blank) 0 5 12 (λ j. 9)).1
        12
        (write memory numbered (init true blank) 0 5 12 (λ j. 9)).2
        0
        5
        12
        (λ j. 0)
      ≡ some o)
    × (((o.0 ≡ 0) × ((j : ℕ) → j < 12 → o.1 j ≡ 9)) ⊎ (o.0 ≡ 1))
read-write_example =
    read-write memory (λ disk. disk) memory-IsFaithful numbered 12 (init true blank) 0 5 12 (λ j. 9)
      (λ j. 0) (omega arith) (omega arith) cold-ready (init-IsCoherent blank numbered (λ k h. refl))
      write_taken

-- page 2 of drive 0 on its way into buffer 0
abbrev fetching : Bio ℕ
fetching = with_buf (init true blank) 0 (claimed (blank.bufs 0) 0 2)

fetching-IsUnique : IsUnique fetching.bufs
unfolding IsUnique init
fetching-IsUnique i j hi hj ep ed li lj = ground (arith, li, lj)

fetching_waits : (lookup fetching 0 2).0 ≡ wait
unfolding lookup scan looked_up init
fetching_waits = refl

wait-ends_example :
    (k : ℕ) × (k < 64)
    × ((fetching.bufs k).busy ≡ true)
    × ((ok : Bool) → (lookup (finish fetching k ok).1 0 2).0 ≢ wait)
wait-ends_example = wait-ends fetching 0 2 fetching-IsUnique fetching_waits

-- a thread claims buffer 0 for page 2, and the driver moves its sectors one by one
abbrev looked : Sys ℕ
looked = look (boot blank numbered) 0 2

abbrev arriving : ℕ → Sys ℕ
arriving zero = looked
arriving (suc w) = load (arriving w) 0 w

abbrev arrived : Sys ℕ
arrived = record (arriving 8) { bio = (finish (arriving 8).bio 0 true).1 }

arriving-busy : (n : ℕ) → ((arriving n).bio.bufs 0).busy ≡ true
unfolding look load lookup scan looked_up miss pick better claim_buf boot init
arriving-busy zero = refl
arriving-busy (suc n) = arriving-busy n

all_loaded : (w : ℕ) → w < 8 → (arriving 8).loaded 0 w ≡ true
unfolding look load
all_loaded zero h = refl
all_loaded (suc zero) h = refl
all_loaded (suc (suc zero)) h = refl
all_loaded (suc (suc (suc zero))) h = refl
all_loaded (suc (suc (suc (suc zero)))) h = refl
all_loaded (suc (suc (suc (suc (suc zero))))) h = refl
all_loaded (suc (suc (suc (suc (suc (suc zero)))))) h = refl
all_loaded (suc (suc (suc (suc (suc (suc (suc zero))))))) h = refl
all_loaded (suc (suc (suc (suc (suc (suc (suc (suc n)))))))) h = absurd (omega arith)

Reach-arriving : (n : ℕ) → n ≤ 8 → Reach (boot blank numbered) (arriving n)
Reach-arriving zero h = next here (looks 0 2)
Reach-arriving (suc n) h =
    next (Reach-arriving n (omega arith)) (loads 0 n (omega arith) (omega arith) (arriving-busy n))

arrived-valid : (arrived.bio.bufs 0).valid ≡ true
unfolding look load lookup scan looked_up miss pick better claim_buf boot init finish
arrived-valid = refl

boot-Agrees_example :
    Agrees arrived.disk arrived.writes arrived.stored arrived.marked (arrived.bio.bufs 0) 3
boot-Agrees_example =
    boot-Agrees blank numbered arrived (λ k h. refl)
      (next (Reach-arriving 8 (omega arith)) (fetches 0 (omega arith) (arriving-busy 8) all_loaded))
      0 3 (omega arith) (omega arith) arrived-valid
