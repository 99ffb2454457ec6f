-- ===== src/Benchmark/Manifest.antt =====
-- src/benchmark.cpp `run_benchmark`: the manifest.
use bengal_market.Base.{Bool, Bytes, List, [], codes, map, true, ℕ, ◌∷◌}
use bengal_market.Benchmark.Host.{Build}
use bengal_market.Benchmark.Reads.{RunRecord}
use bengal_market.Json.{JsonLib}
use bengal_market.Json.Value.{JsonValue, array_of, json_bool, json_number, json_string, object_of}

module _ (J : JsonLib) where
  abbrev index_entry : RunRecord J → JsonValue
  index_entry run = object_of (
      (codes "iteration", json_number run.iteration)
      ∷ (codes "order", json_number run.order)
      ∷ (codes "engine", json_string run.engine)
      ∷ (codes "report", json_string run.output)
      ∷ (codes "stderr", json_string run.error)
      ∷ [])

  -- What the manifest takes from the calls.
  pub record Facts : Type 0 where
    pub runs : ℕ
    pub warmups : ℕ
    pub created : Bytes
    pub executable_digest : Bytes
    pub digest : Bytes
    pub name : Bytes
    pub size : ℕ
    pub environment : JsonValue
    pub valid : Bool
    pub bengal_summary : JsonValue
    pub standard_summary : JsonValue
    pub measured : List (RunRecord J)

module _ (J : JsonLib) (build : Build) where
  unfoldable pub manifest_of : Facts J → JsonValue
  manifest_of f = object_of (
      (codes "schema_version", json_number 1)
      ∷ (codes "created_at_utc", json_string f.created)
      ∷ (
        codes "tool",
        object_of (
            (codes "name", json_string (codes "bengal-market"))
            ∷ (codes "version", json_string build.version)
            ∷ (codes "source_revision", json_string build.source_revision)
            ∷ (codes "bengal_version", json_string build.bengal_version)
            ∷ (codes "executable_sha256", json_string f.executable_digest)
            ∷ []),
      )
      ∷ (
        codes "benchmark",
        object_of (
            (codes "runs", json_number f.runs)
            ∷ (codes "warmups", json_number f.warmups)
            ∷ (codes "fresh_process_per_replay", json_bool true)
            ∷ (codes "engine_order", json_string (codes "alternating"))
            ∷ []),
      )
      ∷ (
        codes "fixture",
        object_of (
            (codes "name", json_string f.name)
            ∷ (codes "size_bytes", json_number f.size)
            ∷ (codes "sha256", json_string f.digest)
            ∷ []),
      )
      ∷ (codes "environment", f.environment)
      ∷ (codes "comparable", json_bool f.valid)
      ∷ (
        codes "summary",
        object_of
            ((codes "bengal", f.bengal_summary) ∷ (codes "standard", f.standard_summary) ∷ []),
      )
      ∷ (codes "runs", array_of (map (index_entry J) f.measured))
      ∷ (
        codes "scope",
        json_string (
            codes
              "Local bounded-pipeline measurements only; not exchange-to-client latency or financial performance."),
      )
      ∷ [])
