-- ===== src/AtomicOutput/Posix.antt =====
-- What src/atomic_output.hpp relies on in the calls of the system: their documented effect on the
-- files, where no other process changes the same names meanwhile.
use bengal_market.AtomicOutput.{FileSystem, interrupted, refused, wrote}
use bengal_market.Base.{
  Bool, Bytes, Option, [], eq_text, false, if◌then◌else◌, is_some, length, none, some, take, true,
  ℕ, ◌++◌, ◌<◌, ◌≡◌, ◌≤◌, ◌⊎◌,
}

pub record IsPosix (F : FileSystem) : Type 0 where
  -- The file under a name, and the name that a descriptor was opened for.
  pub content : Bytes → F.World → Option Bytes
  pub opened : F.Fd → F.World → Option Bytes
  -- How often in a row writes may still be interrupted.
  pub patience : F.World → ℕ
  pub exists_lem :
      (p : Bytes) (w : F.World) (b : Bool) → F.exists p w ≡ some b → b ≡ is_some (content p w)
  pub create_made :
      (p : Bytes) (w : F.World) (fd : F.Fd)
      → (F.create p w).0 ≡ some fd
      → (opened fd (F.create p w).1 ≡ some p)
        × ((q : Bytes)
            → content q (F.create p w).1 ≡ (if eq_text q p then some [] else content q w))
  pub create_refused :
      (p : Bytes) (w : F.World)
      → (F.create p w).0 ≡ none
      → (q : Bytes) → content q (F.create p w).1 ≡ content q w
  -- A write takes bytes from the front and puts them behind what the file holds.
  pub write_taken :
      (fd : F.Fd) (text : Bytes) (w : F.World) (n : ℕ) (p old : Bytes)
      → opened fd w ≡ some p
      → content p w ≡ some old
      → (F.write fd text w).0 ≡ wrote n
      → (n ≤ length text)
        × ((q : Bytes)
            → content q (F.write fd text w).1
              ≡ (if eq_text q p then some (old ++ take n text) else content q w))
  pub write_nothing :
      (fd : F.Fd) (text : Bytes) (w : F.World)
      → ((F.write fd text w).0 ≡ interrupted) ⊎ ((F.write fd text w).0 ≡ refused)
      → (q : Bytes) → content q (F.write fd text w).1 ≡ content q w
  pub write_opened :
      (fd : F.Fd) (text : Bytes) (w : F.World) (g : F.Fd)
      → opened g (F.write fd text w).1 ≡ opened g w
  -- Interruptions come to an end.
  pub write_patience :
      (fd : F.Fd) (text : Bytes) (w : F.World) → patience (F.write fd text w).1 ≤ patience w
  pub write_interrupted :
      (fd : F.Fd) (text : Bytes) (w : F.World)
      → (F.write fd text w).0 ≡ interrupted
      → patience (F.write fd text w).1 < patience w
  pub create_patience : (p : Bytes) (w : F.World) → patience (F.create p w).1 ≤ patience w
  pub fsync_content :
      (fd : F.Fd) (w : F.World) (q : Bytes) → content q (F.fsync fd w).1 ≡ content q w
  pub close_content :
      (fd : F.Fd) (w : F.World) (q : Bytes) → content q (F.close fd w).1 ≡ content q w
  pub directory_content :
      (p : Bytes) (w : F.World) (q : Bytes) → content q (F.open_directory p w).1 ≡ content q w
  -- A link is made only where the new name is free.
  pub link_made :
      (p r : Bytes) (w : F.World)
      → (F.link p r w).0 ≡ true
      → (content r w ≡ none)
        × ((q : Bytes)
            → content q (F.link p r w).1 ≡ (if eq_text q r then content p w else content q w))
  pub link_refused :
      (p r : Bytes) (w : F.World)
      → (F.link p r w).0 ≡ false
      → (q : Bytes) → content q (F.link p r w).1 ≡ content q w
  pub unlink_done :
      (p : Bytes) (w : F.World)
      → (F.unlink p w).0 ≡ true
      → (q : Bytes) → content q (F.unlink p w).1 ≡ (if eq_text q p then none else content q w)
  pub unlink_refused :
      (p : Bytes) (w : F.World)
      → (F.unlink p w).0 ≡ false
      → (q : Bytes) → content q (F.unlink p w).1 ≡ content q w
