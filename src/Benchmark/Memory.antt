-- ===== src/Benchmark/Memory.antt =====
-- A small system for the tests of src/benchmark.cpp: files in memory, a program that prints a digest
-- and one that prints a report of the engine that it is asked for.
use bengal_market.Base.{
  Bool, Bytes, List, Option, [], ap, append_assoc, arith, codes, eq_text, false, if◌then◌else◌,
  none, refl, replicate, some, sym, true, ◌++◌, ◌==◌, ◌||◌, ◌∙◌, ◌∷◌, ◌≡◌, ◌≢◌,
}
use bengal_market.Benchmark.Host.{Host, Status, exited, wait_ended, ◌//◌}
use bengal_market.Benchmark.Laws.{IsHost, lies_under}
use bengal_market.Json.Same.{eq_text_sound}

-- The names that stand, what the files hold, the files that the child has opened, the last first,
-- and how it has ended.
pub record Machine : Type 0 where
  pub names : List Bytes
  pub files : Bytes → Option Bytes
  pub opened : List Bytes
  pub status : Status

abbrev any_under : Bytes → List Bytes → Bool
any_under q [] = false
any_under q (p ∷ ps) = lies_under q p || any_under q ps

abbrev without : Bytes → List Bytes → List Bytes
without p [] = []
without p (r ∷ rs) = if eq_text p r then without p rs else r ∷ without p rs

abbrev put_file : Bytes → Bytes → (Bytes → Option Bytes) → Bytes → Option Bytes
put_file p t files q = if eq_text p q then some t else files q

abbrev held : Option Bytes → Bytes
held none = []
held (some s) = s

-- What stands behind a prefix.
abbrev strip : Bytes → Bytes → Option Bytes
strip [] p = some p
strip (x ∷ prefix) [] = none
strip (x ∷ prefix) (c ∷ p) = if x == c then strip prefix p else none

abbrev moved : Bytes → Bytes → (Bytes → Option Bytes) → Bytes → Option Bytes
moved a b files p = elim (strip (b // []) p) [ none ↦ files p | some name ↦ files (a // name) ]

abbrev second_of : List Bytes → Bytes
second_of (a ∷ b ∷ rest) = b
second_of _ = []

abbrev last_of : List Bytes → Bytes
last_of [] = []
last_of (a ∷ []) = a
last_of (a ∷ b ∷ rest) = last_of (b ∷ rest)

abbrev pub memory_host : Host
memory_host = record {
  World = Machine;
  canonical = λ p w. some p;
  absolute = λ p w. some p;
  exists = λ q w. any_under q w.names;
  relative = λ p base w. some p;
  file_size = λ p w. some 1;
  create_directories = λ p w. (true, record w { names = p ∷ w.names });
  remove = λ p w. (true, record w { names = without p w.names });
  rename = λ a b w. (true, record w { names = b ∷ w.names; files = moved a b w.files });
  readable = λ p w. elim (w.files p) [ none ↦ false | some text ↦ true ];
  content = λ p w. w.files p;
  truncate = λ p w. (true, record w { names = p ∷ w.names; files = put_file p [] w.files });
  write = λ p t w. (true, record w { files = put_file p (held (w.files p) ++ t) w.files });
  close_stream = λ p w. (true, record w { files = put_file p (held (w.files p)) w.files });
  fork = λ child w. (some 7, record (child w).1 { status = (child w).0 });
  waitpid = λ child w. (wait_ended w.status, w);
  open_output = λ p w. (some 3, record w { names = p ∷ w.names; opened = p ∷ w.opened });
  dup2 = λ a b w. (true, w);
  close = λ a w. w;
  setenv = λ name value w. w;
  execv = λ executable arguments w. (
    some (exited 0),
    record w {
      files =
          put_file (second_of w.opened)
            (if eq_text executable (codes "/usr/bin/sha256sum")
              then replicate 64 b'a'
              else last_of arguments ++ 10 ∷ [])
            w.files;
    },
  );
  uname = λ w. some (record { sysname = codes "s"; release = codes "r"; machine = codes "m" });
  hardware_concurrency = λ w. 1;
  utc_time = λ w. none;
  extract_u64 = λ text. none;
}

or_false : (a b : Bool) → a ≡ false → b ≡ false → (a || b) ≡ false
or_false a b e h = (λ i. e i || h i)

without-absent :
    (p q : Bytes) (names : List Bytes)
    → any_under q names ≡ false
    → any_under q (without p names) ≡ false
without-absent p q [] h = refl
without-absent p q (r ∷ rs) h = go (eq_text p r) (lies_under q r) refl h (without-absent p q rs)
  where
    go :
        (b c : Bool)
        → lies_under q r ≡ c
        → (c || any_under q rs) ≡ false
        → (any_under q rs ≡ false → any_under q (without p rs) ≡ false)
        → any_under q (if b then without p rs else r ∷ without p rs) ≡ false
    go b true e h k = absurd (ground (arith, h))
    go true false e h k = k h
    go false false e h k = or_false _ _ e (k h)

eq_text_self : (p : Bytes) → eq_text p p ≡ true
eq_text_self [] = refl
eq_text_self (c ∷ p) = let e : (c == c) ≡ true = ground arith in rw e (eq_text_self p)

eq_text_other : (p q : Bytes) → p ≢ q → eq_text p q ≡ false
eq_text_other p q h = go (eq_text p q) refl
  where
    go : (b : Bool) → eq_text p q ≡ b → b ≡ false
    go true e = absurd (h (eq_text_sound p q e))
    go false e = refl

strip-append : (prefix name : Bytes) → strip prefix (prefix ++ name) ≡ some name
strip-append [] name = refl
strip-append (x ∷ prefix) name =
    let e : (x == x) ≡ true = ground arith in rw e (strip-append prefix name)

put_file-keeps :
    (p q t : Bytes) (files : Bytes → Option Bytes) → p ≢ q → put_file p t files q ≡ files q
put_file-keeps p q t files h = rw (eq_text_other p q h) refl

pub memory_host-IsHost : IsHost memory_host 1
memory_host-IsHost = record {
  create_directories_absent = λ p q w u h. or_false _ _ u h;
  truncate_absent = λ p q w u h. or_false _ _ u h;
  open_output_absent = λ p q w u h. or_false _ _ u h;
  write_absent = λ p t q w h. h;
  close_stream_absent = λ p q w h. h;
  remove_absent = λ p q w h. without-absent p q w.names h;
  dup2_absent = λ a b q w h. h;
  close_absent = λ a q w h. h;
  setenv_absent = λ name value q w h. h;
  execv_absent = λ executable arguments q w h. h;
  fork_absent = λ child q w k h. k w h;
  waitpid_absent = λ child q w h. h;
  rename_absent = λ a b w e h. absurd (ground (arith, e));
  renamed = λ a b name w e.
      ap
        (λ o. elim o as (λ o. Option Bytes) [
          | none ↦ w.files (b // name)
          | some name ↦ w.files (a // name)
        ])
        (ap (strip (b // [])) (sym (append_assoc b (b'/' ∷ []) name))
          ∙ strip-append (b // []) name);
  pending = λ p w. held (w.files p);
  truncated = λ p w e. rw (eq_text_self p) refl;
  written = λ p t w e. rw (eq_text_self p) refl;
  closed = λ p w e. rw (eq_text_self p) refl;
  torn = λ p w e. absurd (ground (arith, e));
  truncate_keeps = λ p q w h. put_file-keeps p q [] w.files h;
  write_keeps = λ p t q w h. put_file-keeps p q (held (w.files p) ++ t) w.files h;
  close_stream_keeps = λ p q w h. put_file-keeps p q (held (w.files p)) w.files h;
  patience = λ w. 0;
  patience_bound = λ w. omega arith;
  waitpid_interrupted = λ child w e. absurd (ground (arith, e));
}
