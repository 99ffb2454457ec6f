-- ===== src/Live/Keeps.antt =====
-- src/live.cpp: the state of a capture, and the calls that keep it.
use bengal_market.AtomicOutput.{FileSystem, part_of}
use bengal_market.AtomicOutput.Posix.{IsPosix}
use bengal_market.AtomicOutput.Write.{IsWriting}
use bengal_market.Base.{
  Bool, Bytes, List, [], arith, false, if◌then◌else◌, length, some, suc, take, true, ℕ, ◌%◌, ◌++◌,
  ◌^◌, ◌∙◌, ◌∷◌, ◌≡◌, ◌≤◌,
}
use bengal_market.Cli.Program.{call}
use bengal_market.Effects.{Action, Fault, Hoare, Hoare-bind, pure, raise, unless, ◌>>=◌}
use bengal_market.Live.{
  CaptureOptions, CaptureState, Network, ask, frame_value, look, maximum_message_size,
}
use bengal_market.Live.Laws.{IsNetwork, Quiet}

-- A line of the file, or what a write that threw has left of one.
pub data Chunk : Type 0 where
  whole torn_off : Bytes → Chunk

abbrev pub chunk_bytes : Chunk → Bytes
chunk_bytes (whole line) = line ++ 10 ∷ []
chunk_bytes (torn_off text) = text

abbrev pub chunks_bytes : List Chunk → Bytes
chunks_bytes [] = []
chunks_bytes (c ∷ cs) = chunk_bytes c ++ chunks_bytes cs

abbrev pub whole_count : List Chunk → ℕ
whole_count [] = 0
whole_count (whole line ∷ cs) = suc (whole_count cs)
whole_count (torn_off text ∷ cs) = whole_count cs

-- A line that the JSON library makes of a message within the limit.
pub record IsFrameText {F : FileSystem} (N : Network F) (line : Bytes) : Type 0 where
  pub time : ℕ
  pub id : ℕ
  pub message : Bytes
  pub short : length message ≤ maximum_message_size
  pub made : N.dump (frame_value time id message) ≡ some line

-- The first bytes of such a line with its break.
pub record IsTornText {F : FileSystem} (N : Network F) (text : Bytes) : Type 0 where
  pub line : Bytes
  pub of_line : IsFrameText N line
  pub size : ℕ
  pub front : text ≡ take size (line ++ 10 ∷ [])

abbrev pub IsMade : {F : FileSystem} → Network F → Chunk → Type 0
IsMade N (whole line) = IsFrameText N line
IsMade N (torn_off text) = IsTornText N text

abbrev pub AreMade : {F : FileSystem} → Network F → List Chunk → Type 0
AreMade N [] = Unit {0}
AreMade N (e ∷ cs) = IsMade N e × AreMade N cs

-- One capture: the system that it runs on, the file, the bytes of the metadata line, and how many
-- writes may still be interrupted.
pub record Setting : Type 1 where
  pub F : FileSystem
  pub V : IsPosix F
  pub N : Network F
  pub W : IsNetwork V N
  pub options : CaptureOptions
  pub head : Bytes
  pub k : ℕ

module _ (G : Setting) where
  open G use {F, V, N, W, options, head, k}

  -- The part file holds the metadata and the frames that were counted; `b` bounds what the sends may
  -- still be put off, and `c` the clock from below.
  pub record IsCapturing (b c : ℕ) (s : CaptureState F) : Type 0 where
    pub chunks : List Chunk
    pub writing : IsWriting V options.output k (head ++ chunks_bytes chunks) s.output
    pub made_lines : AreMade N chunks
    pub frames_counted : s.frames ≡ whole_count chunks % 2 ^ 64
    pub budgeted : W.budget s.output.world ≤ b
    pub timed : c ≤ W.clock s.output.world

  -- The call keeps the state, whether it returns or throws.
  abbrev pub Keeps : {A : Type 0} → ℕ → ℕ → Action (CaptureState F) A → Type 0
  Keeps b c m = Hoare (IsCapturing b c) m (λ a. IsCapturing b c) (IsCapturing b c)

  pub IsCapturing-weaken :
      (b b' c c' : ℕ) (s : CaptureState F)
      → b ≤ b'
      → c' ≤ c
      → IsCapturing b c s
      → IsCapturing b' c' s
  IsCapturing-weaken b b' c c' s h h' v = record {
    chunks = v.chunks;
    writing = v.writing;
    made_lines = v.made_lines;
    frames_counted = v.frames_counted;
    budgeted = omega (arith, v.budgeted, h);
    timed = omega (arith, v.timed, h');
  }

  -- A state whose file and counts are those of another.
  pub Quiet-IsCapturing :
      (b c : ℕ) (s : CaptureState F) (w : F.World)
      → Quiet V W.clock W.budget s.output.world w
      → IsCapturing b c s
      → IsCapturing b c (record s { output = record s.output { world = w } })
  Quiet-IsCapturing b c s w q v = record {
    chunks = v.chunks;
    writing = record {
      file = v.writing.file;
      has_file = v.writing.has_file;
      names = q.same_opened v.writing.file ∙ v.writing.names;
      holds_body = q.same_content (part_of options.output) ∙ v.writing.holds_body;
      unpublished = q.same_content options.output ∙ v.writing.unpublished;
      uncommitted = v.writing.uncommitted;
      patient = omega (arith, q.patience_le, v.writing.patient);
    };
    made_lines = v.made_lines;
    frames_counted = v.frames_counted;
    budgeted = omega (arith, q.budget_le, v.budgeted);
    timed = omega (arith, q.clock_le, v.timed);
  }

  pub ask-Keeps :
      (b c : ℕ) {A : Type 0} (call : F.World → A × F.World)
      → ((w : F.World) → Quiet V W.clock W.budget w (call w).1)
      → Keeps b c (ask N options call)
  ask-Keeps b c call q = record {
    run = λ s v. Quiet-IsCapturing b c s (call s.output.world).1 (q s.output.world) v;
  }

  pub bind-Keeps :
      (b c : ℕ) {A B : Type 0} (m : Action (CaptureState F) A) (f : A → Action (CaptureState F) B)
      → Keeps b c m
      → ((a : A) → Keeps b c (f a))
      → Keeps b c (m >>= f)
  bind-Keeps b c m f h g =
      Hoare-bind (IsCapturing b c) m f (λ a. IsCapturing b c) (λ a. IsCapturing b c)
        (IsCapturing b c) h g

  pub pure-Keeps : (b c : ℕ) {A : Type 0} (a : A) → Keeps b c (pure a)
  pure-Keeps b c a = record { run = λ s v. v }

  pub raise-Keeps : (b c : ℕ) {A : Type 0} (e : Fault) → Keeps b c (raise {A = A} e)
  raise-Keeps b c e = record { run = λ s v. v }

  pub unless-Keeps : (b c : ℕ) (t : Bool) (e : Fault) → Keeps b c (unless t e)
  unless-Keeps b c true e = record { run = λ s v. v }
  unless-Keeps b c false e = record { run = λ s v. v }

  pub look-Keeps : (b c : ℕ) {A : Type 0} (f : CaptureState F → A) → Keeps b c (look N options f)
  look-Keeps b c f = record { run = λ s v. v }

  pub if-Keeps :
      (b c : ℕ) {A : Type 0} (t : Bool) (m n : Action (CaptureState F) A)
      → Keeps b c m
      → Keeps b c n
      → Keeps b c (if t then m else n)
  if-Keeps b c true m n h g = h
  if-Keeps b c false m n h g = g
