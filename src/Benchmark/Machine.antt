-- ===== src/Benchmark/Machine.antt =====
-- src/benchmark.cpp: `trim`, `first_matching_line`, `memory_bytes`, `read_optional`, `utc_now` and
-- `environment_value`.
use mathlib.Core.List.{reverse}
use bengal_market.Base.{
  Bool, Bytes, List, Option, [], codes, false, if◌then◌else◌, ltb, none, some, true, ℕ, ◌&&◌, ◌-◌,
  ◌/◌, ◌==◌, ◌^◌, ◌||◌, ◌∷◌,
}
use bengal_market.Base.Words.{mul_u64}
use bengal_market.Benchmark.Host.{Build, Host, UnixName, query}
use bengal_market.Effects.{Action, returned, ◌>>=◌}
use bengal_market.Json.Value.{JsonValue, json_number, json_string, object_of}

abbrev pub is_line_blank : ℕ → Bool
is_line_blank c = (c == 10) || (c == 13) || (c == b' ') || (c == 9)

abbrev pub is_blank : ℕ → Bool
is_blank c = (c == b' ') || (c == 9)

abbrev pub drop_while : (ℕ → Bool) → Bytes → Bytes
drop_while test [] = []
drop_while test (c ∷ s) = if test c then drop_while test s else c ∷ s

-- `pop_back` works on the other end.
unfoldable pub trim : Bytes → Bytes
trim value = drop_while is_blank (reverse (drop_while is_line_blank (reverse value)))

-- The lines that `std::getline` gives of a text; what stands behind the last break is one if it is
-- not empty.
unfoldable pub lines_of : Bytes → List Bytes
lines_of text = go [] text
  where
    go : Bytes → Bytes → List Bytes
    go [] [] = []
    go (c ∷ line) [] = reverse (c ∷ line) ∷ []
    go line (c ∷ text) = if c == 10 then reverse line ∷ go [] text else go (c ∷ line) text

abbrev pub starts_with : Bytes → Bytes → Bool
starts_with line [] = true
starts_with [] (p ∷ prefix) = false
starts_with (c ∷ line) (p ∷ prefix) = (c == p) && starts_with line prefix

-- What stands behind the first colon.
abbrev pub after_colon : Bytes → Option Bytes
after_colon [] = none
after_colon (c ∷ line) = if c == b':' then some line else after_colon line

unfoldable pub matching_line : List Bytes → Bytes → Option Bytes
matching_line [] prefix = none
matching_line (line ∷ lines) prefix =
    if starts_with line prefix
    then some (trim (get_or_else (after_colon line) line))
    else matching_line lines prefix
  where
    get_or_else : Option Bytes → Bytes → Bytes
    get_or_else none d = d
    get_or_else (some v) d = v

module _ (H : Host) (build : Build) where
  open H use {World}

  -- A file that does not open has no lines.
  abbrev lines_at : Bytes → World → List Bytes
  lines_at path s = elim (H.content path s) [ none ↦ [] | some text ↦ lines_of text ]

  unfoldable pub first_matching_line : Bytes → Bytes → World → Option Bytes
  first_matching_line path prefix s = matching_line (lines_at path s) prefix

  abbrev to_bytes : Option ℕ → ℕ
  to_bytes none = 0
  to_bytes (some kibibytes) =
      if ltb ((2 ^ 64 - 1) / 1024) kibibytes then 0 else mul_u64 kibibytes 1024

  unfoldable pub memory_bytes : World → ℕ
  memory_bytes s = elim (first_matching_line (codes "/proc/meminfo") (codes "MemTotal:") s) [
    | none ↦ 0
    | some value ↦ to_bytes (H.extract_u64 value)
  ]

  unfoldable pub read_optional : Bytes → World → Bytes
  read_optional path s = first_line (lines_at path s)
    where
      first_line : List Bytes → Bytes
      first_line [] = codes "unknown"
      first_line (line ∷ lines) = trim line

  abbrev or_unknown : Option Bytes → Bytes
  or_unknown none = codes "unknown"
  or_unknown (some text) = text

  unfoldable pub utc_now : World → Bytes
  utc_now s = or_unknown (H.utc_time s)

  unfoldable pub environment_value : Action World JsonValue
  unfolding memory_bytes read_optional first_matching_line
  environment_value = do system ← query H H.uname (codes "uname failed"); described system
    where
      described : UnixName → Action World JsonValue
      described system s = (
        returned (
            object_of (
              (codes "operating_system", json_string system.sysname)
              ∷ (codes "kernel_release", json_string system.release)
              ∷ (codes "architecture", json_string system.machine)
              ∷ (
                codes "cpu_model",
                json_string (
                    or_unknown
                      (first_matching_line (codes "/proc/cpuinfo") (codes "model name") s)),
              )
              ∷ (codes "logical_cpus", json_number (H.hardware_concurrency s))
              ∷ (codes "memory_bytes", json_number (memory_bytes s))
              ∷ (
                codes "scaling_governor",
                json_string (
                    read_optional (codes "/sys/devices/system/cpu/cpu0/cpufreq/scaling_governor")
                      s),
              )
              ∷ (codes "compiler", json_string build.compiler)
              ∷ [])),
        s,
      )
