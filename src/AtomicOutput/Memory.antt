-- ===== src/AtomicOutput/Memory.antt =====
-- A file system in memory for the tests of src/atomic_output.hpp: it interrupts the first writes, and
-- then takes up to eight bytes at a time.
use mathlib.Core.Option.{some-injective}
use bengal_market.AtomicOutput.{FileSystem, WriteAnswer, interrupted, refused, wrote}
use bengal_market.AtomicOutput.Posix.{IsPosix}
use bengal_market.Base.{
  Bool, Bytes, Option, [], ap, arith, eq_text, false, if◌then◌else◌, inl, inr, is_some, length, min,
  none, refl, some, suc, sym, take, true, zero, ℕ, ◌++◌, ◌<◌, ◌∙◌, ◌≡◌, ◌≤◌, ◌⊎◌,
}

pub record Disk : Type 0 where
  pub files : Bytes → Option Bytes
  pub interrupts : ℕ
  -- What a network may keep beside the files: the time, how often a send will be put off, and what
  -- was sent.
  pub time : ℕ
  pub delays : ℕ
  pub sent : Bytes

abbrev put : Bytes → Option Bytes → (Bytes → Option Bytes) → Bytes → Option Bytes
put p t files q = if eq_text q p then t else files q

abbrev or_empty : Option Bytes → Bytes
or_empty none = []
or_empty (some t) = t

abbrev create_in : Option Bytes → Bytes → Disk → Option Bytes × Disk
create_in none p w = (some p, record w { files = put p (some []) w.files })
create_in (some t) p w = (none, w)

abbrev write_in : ℕ → Bytes → Bytes → Disk → WriteAnswer × Disk
write_in zero p text w = (
  wrote (min 8 (length text)),
  record w {
    files = put p (some (or_empty (w.files p) ++ take (min 8 (length text)) text)) w.files;
  },
)
write_in (suc n) p text w = (interrupted, record w { interrupts = n })

abbrev link_in : Option Bytes → Bytes → Bytes → Disk → Bool × Disk
link_in none p r w = (true, record w { files = put r (w.files p) w.files })
link_in (some t) p r w = (false, w)

abbrev pub memory : FileSystem
memory = record {
  World = Disk;
  Fd = Bytes;
  exists = λ p w. some (is_some (w.files p));
  create = λ p w. create_in (w.files p) p w;
  write = λ p text w. write_in w.interrupts p text w;
  fsync = λ p w. (true, w);
  close = λ p w. (true, w);
  link = λ p r w. link_in (w.files r) p r w;
  unlink = λ p w. (true, record w { files = put p none w.files });
  open_directory = λ p w. (some p, w);
}

pub create_in-made :
    (p : Bytes) (w : Disk) (fd : Bytes) (o : Option Bytes)
    → (create_in o p w).0 ≡ some fd
    → (some fd ≡ some p)
      × ((q : Bytes) → (create_in o p w).1.files q ≡ (if eq_text q p then some [] else w.files q))
create_in-made p w fd none e = (sym e, λ q. refl)
create_in-made p w fd (some t) e = cc e

pub create_in-refused :
    (p : Bytes) (w : Disk) (o : Option Bytes)
    → (create_in o p w).0 ≡ none
    → (q : Bytes) → (create_in o p w).1.files q ≡ w.files q
create_in-refused p w none e q = cc e
create_in-refused p w (some t) e q = refl

pub create_in-patience :
    (p : Bytes) (w : Disk) (o : Option Bytes) → (create_in o p w).1.interrupts ≤ w.interrupts
create_in-patience p w none = omega arith
create_in-patience p w (some t) = omega arith

pub write_in-taken :
    (i : ℕ) (p text : Bytes) (w : Disk) (n : ℕ) (name old : Bytes)
    → some p ≡ some name
    → w.files name ≡ some old
    → (write_in i p text w).0 ≡ wrote n
    → (n ≤ length text)
      × ((q : Bytes)
          → (write_in i p text w).1.files q
            ≡ (if eq_text q name then some (old ++ take n text) else w.files q))
write_in-taken zero p text w n name old e c h =
    let same : p ≡ name = some-injective p name e in
    let count : min 8 (length text) ≡ n = cc h in
    (omega (arith, count), λ q. rw (sym same, count, ap w.files same ∙ c) refl)
write_in-taken (suc i) p text w n name old e c h = cc h

pub write_in-nothing :
    (i : ℕ) (p text : Bytes) (w : Disk)
    → ((write_in i p text w).0 ≡ interrupted) ⊎ ((write_in i p text w).0 ≡ refused)
    → (q : Bytes) → (write_in i p text w).1.files q ≡ w.files q
write_in-nothing zero p text w (inl e) q = cc e
write_in-nothing zero p text w (inr e) q = cc e
write_in-nothing (suc i) p text w e q = refl

pub write_in-patience :
    (i : ℕ) (p text : Bytes) (w : Disk) → w.interrupts ≡ i → (write_in i p text w).1.interrupts ≤ i
write_in-patience zero p text w e = omega (arith, e)
write_in-patience (suc i) p text w e = omega arith

pub write_in-interrupted :
    (i : ℕ) (p text : Bytes) (w : Disk)
    → (write_in i p text w).0 ≡ interrupted
    → (write_in i p text w).1.interrupts < i
write_in-interrupted zero p text w e = cc e
write_in-interrupted (suc i) p text w e = omega arith

pub link_in-made :
    (p r : Bytes) (w : Disk) (o : Option Bytes)
    → w.files r ≡ o
    → (link_in o p r w).0 ≡ true
    → (w.files r ≡ none)
      × ((q : Bytes) → (link_in o p r w).1.files q ≡ (if eq_text q r then w.files p else w.files q))
link_in-made p r w none h e = (h, λ q. refl)
link_in-made p r w (some t) h e = cc e

pub link_in-refused :
    (p r : Bytes) (w : Disk) (o : Option Bytes)
    → (link_in o p r w).0 ≡ false
    → (q : Bytes) → (link_in o p r w).1.files q ≡ w.files q
link_in-refused p r w none e q = cc e
link_in-refused p r w (some t) e q = refl

pub never_refused :
    (p : Bytes) (w : Disk)
    → (memory.unlink p w).0 ≡ false
    → (q : Bytes) → (memory.unlink p w).1.files q ≡ w.files q
never_refused p w e q = cc e

pub write_in-time : (i : ℕ) (p text : Bytes) (w : Disk) → (write_in i p text w).1.time ≡ w.time
write_in-time zero p text w = refl
write_in-time (suc i) p text w = refl

pub write_in-delays :
    (i : ℕ) (p text : Bytes) (w : Disk) → (write_in i p text w).1.delays ≡ w.delays
write_in-delays zero p text w = refl
write_in-delays (suc i) p text w = refl

pub create_in-delays :
    (o : Option Bytes) (p : Bytes) (w : Disk) → (create_in o p w).1.delays ≡ w.delays
create_in-delays none p w = refl
create_in-delays (some t) p w = refl

-- The calls have their documented effect.
abbrev pub memory-IsPosix : IsPosix memory
memory-IsPosix = record {
  content = λ q w. w.files q;
  opened = λ fd w. some fd;
  patience = λ w. w.interrupts;
  exists_lem = λ p w b e. sym (some-injective _ b e);
  create_made = λ p w fd e. create_in-made p w fd (w.files p) e;
  create_refused = λ p w e. create_in-refused p w (w.files p) e;
  create_patience = λ p w. create_in-patience p w (w.files p);
  write_taken = λ fd text w n p old e c h. write_in-taken w.interrupts fd text w n p old e c h;
  write_nothing = λ fd text w e. write_in-nothing w.interrupts fd text w e;
  write_opened = λ fd text w g. refl;
  write_patience = λ fd text w. write_in-patience w.interrupts fd text w refl;
  write_interrupted = λ fd text w e. write_in-interrupted w.interrupts fd text w e;
  fsync_content = λ fd w q. refl;
  close_content = λ fd w q. refl;
  directory_content = λ p w q. refl;
  link_made = λ p r w e. link_in-made p r w (w.files r) refl e;
  link_refused = λ p r w e. link_in-refused p r w (w.files r) e;
  unlink_done = λ p w e q. refl;
  unlink_refused = never_refused;
}

abbrev pub empty_disk : Disk
empty_disk = record { files = λ q. none; interrupts = 2; time = 0; delays = 1; sent = [] }
