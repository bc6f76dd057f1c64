-- ===== src/FsTxn/Tests.antt =====
-- fs/fs_txn.c over a disk of numbers, whose checked blocks are sealed by doubling.
use style9_os.Base.{
  ℕ, ◌+◌, ◌*◌, ◌≡◌, ◌≢◌, refl, true, false, some, [], ◌∷◌, ◌==◌, if◌then◌else◌, arith, add64,
}
use style9_os.FsTxn.{
  Device, Txn, Stats, e_ok, e_io, find, fetch, touch, get, get_into, flush, write_slot, commit,
}
use style9_os.FsTxn.Fetch.{IsTxn, IsDistinct, Got, get-Got}
use style9_os.FsTxn.Poison.{op_get, op_edit, op_dirty, run, run-IsTxn, commit_poisoned}
use style9_os.FsTxn.Commit.{IsDevice, Flushed, commit-Flushed}

abbrev Cells : Type 0
Cells = ℕ → ℕ

abbrev write_cell : Cells → ℕ → ℕ → Cells
write_cell d b x c = if b == c then x else d c

abbrev double : ℕ → ℕ
double x = x * 2

abbrev device : Device Cells ℕ
device = record {
  read_checked = λ d b. some (d b);
  read_raw = λ d b. some (d b);
  write_checked = λ d b x. (true, write_cell d b (double x));
  write_raw = λ d b x. (true, write_cell d b x);
}

write_cell_at : (d : Cells) (b x : ℕ) → write_cell d b x b ≡ x
write_cell_at d b x = ground arith

write_cell_apart : (d : Cells) (b c x : ℕ) → (b == c) ≡ false → write_cell d b x c ≡ d c
write_cell_apart d b c x h = rw h refl

device-IsDevice : IsDevice device double
device-IsDevice = record {
  checked_back = λ d b x ok. rw (write_cell_at d b (double x)) refl;
  raw_back = λ d b x ok. rw (write_cell_at d b x) refl;
  checked_apart = λ d b c x h. (
    rw (write_cell_apart d b c (double x) h) refl,
    rw (write_cell_apart d b c (double x) h) refl,
  );
  raw_apart =
      λ d b c x h. (rw (write_cell_apart d b c x h) refl, rw (write_cell_apart d b c x h) refl);
}

abbrev blank : Cells
blank b = b + 100

abbrev fresh : Txn ℕ
fresh = record { slots = []; failed = false }

abbrev one_dirty : Txn ℕ
one_dirty = record {
  slots = record { bno = 5; buf = 7; dirty = true; raw = false } ∷ [];
  failed = false;
}

fresh-IsTxn : IsTxn fresh
fresh-IsTxn = record { distinct = unfold IsDistinct in tt; few = omega arith }

one_dirty-IsTxn : IsTxn one_dirty
one_dirty-IsTxn = record { distinct = unfold IsDistinct find in (refl, tt); few = omega arith }

abbrev counters : Stats
counters = record { commits = 0; blocks = 0; aborts = 0 }

get-Got_example :
    Got fresh 5 false (fetch device blank 5 false) (get true device blank fresh 5 false)
get-Got_example = get-Got true device blank fresh 5 false fresh-IsTxn

abbrev fetched : Txn ℕ
fetched = record {
  slots = record { bno = 5; buf = 105; dirty = false; raw = false } ∷ [];
  failed = false;
}

first_get : get true device blank fresh 5 false ≡ (e_ok, some 0, fetched)
unfolding get find touch fetch
first_get = refl

run-IsTxn_example :
    IsTxn (run device blank fresh (op_get true true 5 false ∷ op_edit 0 double ∷ op_dirty 5 ∷ []))
run-IsTxn_example =
    run-IsTxn device blank fresh (op_get true true 5 false ∷ op_edit 0 double ∷ op_dirty 5 ∷ [])
      fresh-IsTxn

no_memory : (get_into true false device blank fresh 5 false).0 ≢ e_ok
unfolding get_into get find touch
no_memory e = cc

commit_poisoned_example :
    commit device blank counters
      (run device blank (get_into true false device blank fresh 5 false).2 (op_dirty 5 ∷ []))
    ≡ (
      e_io,
      blank,
      record counters { aborts = add64 counters.aborts 1 },
      record { slots = []; failed = true },
    )
commit_poisoned_example =
    commit_poisoned device blank counters fresh false 5 false (op_dirty 5 ∷ []) fresh-IsTxn tt
      no_memory

commit_ok : (commit device blank counters one_dirty).0 ≡ e_ok
unfolding commit flush write_slot
commit_ok = refl

commit-Flushed_example :
    ((b : ℕ)
      → Flushed device double blank
          (commit device blank counters one_dirty).1
          b
          (find one_dirty.slots b))
    × ((commit device blank counters one_dirty).3.slots ≡ [])
commit-Flushed_example =
    commit-Flushed device double device-IsDevice blank counters one_dirty one_dirty-IsTxn commit_ok
