-- ===== src/Klog.antt =====
-- mach/klog.c: the kernel's log ring. ring_lock is held throughout each function but the echo to the
-- console, so each is one step. Strings are lists of character codes without their terminator, NULL is
-- `none`; the time is an argument.
pub mod Ring
mod Tests
use style9_os.Base.{
  ℕ, zero, suc, ◌+◌, ◌-◌, ◌%◌, ◌^◌, ◌≡◌, Bool, true, false, ◌||◌, Option, none, some, List, [], ◌∷◌,
  ltb, leb, ◌==◌, if◌then◌else◌, get_or, set, take, replicate,
}

-- struct klog_entry
pub record Line : Type 0 where
  pub uptime_ms : ℕ
  pub seq : ℕ
  pub level : ℕ
  pub src : List ℕ
  pub text : List ℕ

pub record Klog : Type 0 where
  pub ring : List Line
  pub head : ℕ
  pub count : ℕ
  pub next_seq : ℕ

-- KLOG_RING_ENTRIES
abbrev pub ring_entries : ℕ
ring_entries = 128

abbrev pub empty_line : Line
empty_line = record { uptime_ms = 0; seq = 0; level = 0; src = []; text = [] }

unfoldable pub init : Klog → Klog
init k = record k { head = 0; count = 0; next_seq = 1 }

-- klog_copy_field: at most `cap - 1` characters
unfoldable pub copy_field : ℕ → List ℕ → List ℕ
copy_field cap s = take (cap - 1) s

-- "(null)" and "kern"
abbrev pub null_text : List ℕ
null_text = 40 ∷ 110 ∷ 117 ∷ 108 ∷ 108 ∷ 41 ∷ []

abbrev pub kern_src : List ℕ
kern_src = 107 ∷ 101 ∷ 114 ∷ 110 ∷ []

abbrev pub or_text : List ℕ → Option (List ℕ) → List ℕ
or_text d none = d
or_text d (some s) = s

-- the entry that klog writes
unfoldable pub line : Klog → ℕ → ℕ → Option (List ℕ) → Option (List ℕ) → Line
line k now level src text = record {
  uptime_ms = now;
  seq = k.next_seq;
  level = if ltb level 1 || ltb 4 level then 2 else level;
  src = copy_field 8 (or_text kern_src src);
  text = copy_field 96 (or_text null_text text);
}

-- the entry put in the slot at the head
unfoldable pub append : Klog → Line → Klog
append k l = record {
  ring = set k.ring k.head l;
  head = (k.head + 1) % ring_entries;
  count = if ltb k.count ring_entries then k.count + 1 else k.count;
  next_seq = (k.next_seq + 1) % 2 ^ 32;
}

unfoldable pub klog : Klog → ℕ → ℕ → Option (List ℕ) → Option (List ℕ) → Klog
klog k now level src text = append k (line k now level src text)

-- the copying loop of klog_snapshot_tail, with `left` entries left from `first + i`
unfoldable pub copy_out : ℕ → List Line → ℕ → ℕ → List Line
copy_out zero ring first i = []
copy_out (suc left) ring first i =
    get_or ring ((first + i) % ring_entries) empty_line ∷ copy_out left ring first (i + 1)

-- klog_snapshot_tail, into an array of `max` entries
unfoldable pub snapshot_tail : Klog → ℕ → List Line
snapshot_tail k max =
    let n = if ltb k.count max then k.count else max in
    let first = (k.head + ring_entries - n) % ring_entries in
    if max == 0 then [] else copy_out n k.ring first 0
