-- ===== src/VmObject/Tests.antt =====
-- The pager on a file of 5000 bytes.
use style9_os.Base.{ℕ, ◌+◌, ◌%◌, ◌≡◌, refl, true, false, ltb, if◌then◌else◌, arith}
use style9_os.VmObject.Pager.{Files, FileObject, IsFiles, Filled, page, page-Filled}

-- one file, whose byte at each offset is the offset's last; a handle is the generation it was read at,
-- which each read brings up to date
abbrev counting : Files ℕ ℕ
counting = record {
  is_none = λ h. false;
  size_of = λ h. 5000;
  hold = λ fs h. (0, fs);
  pread = λ fs h off len out. (0, len, λ j. if ltb j len then (off + j) % 256 else out j, fs);
}

counting-IsFiles : IsFiles counting (λ fs h j. j % 256)
counting-IsFiles = record {
  read_ok =
      λ fs h off len out e j l. let inside : ltb j len ≡ true = ground arith in rw inside refl;
  read_rest = λ fs h off len out e j l. ground arith;
}

abbrev mapped : FileObject ℕ
mapped = record { handle = 1; size = 5000; n_page = 0; refs = 1 }

-- the second page: 904 bytes of the file, then zeroes
last_byte : (page counting 8 mapped 4096 (λ j. 0)).2 903 ≡ 4999 % 256
unfolding page
last_byte = refl

after_end : (page counting 8 mapped 4096 (λ j. 0)).2 904 ≡ 0
unfolding page
after_end = refl

fresh_handle : (page counting 8 mapped 4096 (λ j. 0)).1.handle ≡ 8
unfolding page
fresh_handle = refl

page-Filled_example :
    Filled counting
      (λ fs h j. j % 256)
      counting-IsFiles
      8
      mapped
      4096
      (page counting 8 mapped 4096 (λ j. 0))
page-Filled_example = page-Filled counting (λ fs h j. j % 256) counting-IsFiles 8 mapped 4096
