-- ===== src/Klog/Tests.antt =====
-- mach/klog.c: two lines into an empty ring.
use style9_os.Base.{
  ℕ, ◌≡◌, refl, Option, none, some, List, [], ◌∷◌, arith, length, min, replicate, length-replicate,
}
use style9_os.Klog.{Klog, klog, line, snapshot_tail, empty_line}
use style9_os.Klog.Ring.{IsLog, klog-IsLog, newest, snapshot_tail-newest}

abbrev fresh : Klog
fresh = record { ring = replicate 128 empty_line; head = 0; count = 0; next_seq = 1 }

fresh-IsLog : IsLog fresh []
fresh-IsLog = record {
  ring = record {
    slots = length-replicate 128 empty_line;
    head_in = omega arith;
    count_in = omega arith;
  };
  counted = refl;
  lines = λ i h. absurd (omega arith);
}

abbrev hello : Option (List ℕ)
hello = some (104 ∷ 105 ∷ [])

abbrev one_line : Klog
one_line = klog fresh 5 9 none hello

klog-IsLog_example : IsLog one_line (line fresh 5 9 none hello ∷ [])
klog-IsLog_example = klog-IsLog fresh [] 5 9 none hello fresh-IsLog

snapshot_tail-newest_example :
    snapshot_tail one_line 16
    ≡ newest
        (line fresh 5 9 none hello ∷ [])
        (min (length (line fresh 5 9 none hello ∷ [])) (min 128 16))
snapshot_tail-newest_example =
    snapshot_tail-newest one_line (line fresh 5 9 none hello ∷ []) 16
      (klog-IsLog fresh [] 5 9 none hello fresh-IsLog)
