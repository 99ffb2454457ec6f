-- ===== src/AtomicOutput/Tests.antt =====
-- Tests of src/atomic_output.hpp on the file system in memory.
use bengal_market.AtomicOutput.{
  Output, check_absent, commit, construct, destroy, drop_name, drop_slashes, filename, has_slash,
  parent_path, part_of, publish, sync_parent, write, write_line, write_some,
}
use bengal_market.AtomicOutput.Commit.{IsPublished}
use bengal_market.AtomicOutput.Construct.{IsNew}
use bengal_market.AtomicOutput.Line.{write_line-Appends}
use bengal_market.AtomicOutput.Memory.{Disk, empty_disk, memory, memory-IsPosix}
use bengal_market.AtomicOutput.Session.{IsSafe, joined, save, save-IsSafe, write_lines}
use bengal_market.AtomicOutput.Write.{IsTorn, IsWriting}
use bengal_market.Base.{
  Bytes, List, Option, [], arith, codes, eq_text, false, if◌then◌else◌, none, refl, some, ◌++◌, ◌∷◌,
  ◌≡◌,
}
use bengal_market.Effects.{Done, Outcome, Result, ◌>>=◌}

abbrev fresh_object : Output memory
fresh_object = record { fd = none; committed = false; world = empty_disk }

abbrev two_lines : List Bytes
two_lines = codes "first line" ∷ codes "x" ∷ []

fresh_object-IsNew : IsNew memory-IsPosix (codes "out") 2 none fresh_object
fresh_object-IsNew = record {
  closed = refl;
  unused = refl;
  content_before = refl;
  waits = omega arith;
}

saved : Result Done × Output memory
unfolding save write_lines construct write_line write write_some commit publish sync_parent destroy
    check_absent ◌>>=◌ filename has_slash parent_path drop_name drop_slashes
saved = save memory 20 (codes "out") two_lines fresh_object

saved-published : saved.1.world.files (codes "out") ≡ some (joined two_lines)
unfolding saved
saved-published = refl

save-IsSafe_example :
    Outcome
      (λ u s'.
        (◌≡◌ {A = Option Bytes} none none)
        × IsPublished memory-IsPosix (codes "out") (joined two_lines) s')
      (IsSafe memory-IsPosix (codes "out") none (joined two_lines))
      (save memory 20 (codes "out") two_lines fresh_object)
save-IsSafe_example =
    save-IsSafe memory-IsPosix (codes "out") two_lines 20 2 none fresh_object (omega arith)
      (omega arith) fresh_object-IsNew

abbrev started : Disk
started = record {
  files = λ q. if eq_text q (part_of (codes "out")) then some [] else none;
  interrupts = 2;
  time = 0;
  delays = 1;
  sent = [];
}

fresh_object-IsWriting :
    IsWriting memory-IsPosix
      (codes "out")
      2
      []
      (record { fd = some (part_of (codes "out")); committed = false; world = started })
fresh_object-IsWriting = record {
  file = part_of (codes "out");
  has_file = refl;
  names = refl;
  holds_body = refl;
  unpublished = refl;
  uncommitted = refl;
  patient = omega arith;
}

write_line-Appends_example :
    Outcome
      (λ u. IsWriting memory-IsPosix (codes "out") 2 ([] ++ (codes "a line" ++ 10 ∷ [])))
      (IsTorn memory-IsPosix (codes "out") 2 [] (codes "a line" ++ 10 ∷ []))
      (write_line memory 10
        (codes "a line")
        (record { fd = some (part_of (codes "out")); committed = false; world = started }))
write_line-Appends_example =
    write_line-Appends memory-IsPosix (codes "out") 10 2 (codes "a line") []
      (record { fd = some (part_of (codes "out")); committed = false; world = started })
      (omega arith) (omega arith) fresh_object-IsWriting
