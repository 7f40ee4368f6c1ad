-- ===== src/Converter/Intake.antt =====
-- What the conversion makes of a job of the cloud, and when it panics. The tables are written out here, apart from
-- the `switch`es of the code.
use oqtopus_engine.Prelude.{
  ℕ, String, Bool, true, false, Option, none, some, List, [], ◌∷◌, Outcome, ok, err, panic, ◌⊎◌,
  inl, inr, ◌≡◌, ◌≢◌, refl, or_else, str_eq, arith, Bool-cases,
}
use oqtopus_engine.Prelude.Dict.{lookup, string_eq}
use oqtopus_engine.Core.Fault.{Fault}
use oqtopus_engine.Core.Status.{Status, submitted, ready, running, succeeded, failed}
use oqtopus_engine.Core.Data.{JobData, TranspilerConfig}
use oqtopus_engine.Converter.{
  Codec, CloudJob, CloudStatus, CloudJobType, multi_manual, sampling, estimation, sse, other_type,
  OptNil, RawMap, unset, null, set, convert_program, convert_job_type, convert_from_cloud_status,
  convert_transpiler, convert_to_transpiler_info_from_onti, convert_to_transpiler_info,
  use_transpiler, use_default_transpiler, convert_from_cloud_job,
}
use text.Mathlib.TextEquality.{eq_iff}

-- The status in the engine for a status of the cloud.
pub data Means : CloudStatus → Status → Type 0 where
  as_submitted : Means CloudStatus.submitted submitted
  as_ready : Means CloudStatus.ready ready
  as_running : Means CloudStatus.running running
  as_succeeded : Means CloudStatus.succeeded succeeded
  as_failed : Means CloudStatus.failed failed
  cancelled_as_failed : Means CloudStatus.cancelled failed

-- The job type in the engine for a type of the cloud.
pub data Named : CloudJobType → String → Type 0 where
  as_sampling : Named sampling "sampling"
  as_estimation : Named estimation "estimation_job"
  as_multi_manual : Named multi_manual "multi_manual"
  as_sse : Named sse "sse"
  as_normal : (t : String) → Named (other_type t) "normal"

-- The program: all of a multi_manual job in one text, which is empty where there is none, and else the first.
pub data Takes (codec : Codec) : CloudJobType → List String → String → Type 0 where
  joined :
      (ps : List String) (q : String)
      → codec.marshal_programs ps ≡ some q
      → Takes codec multi_manual ps q
  not_joined :
      (ps : List String) → codec.marshal_programs ps ≡ none → Takes codec multi_manual ps ""
  first :
      (t : CloudJobType) (q : String) (ps : List String)
      → t ≢ multi_manual
      → Takes codec t (q ∷ ps) q

-- No library of a transpiler is named, not even by null.
pub data Unnamed : OptNil RawMap → Type 0 where
  by_null : Unnamed null
  by_unset : Unnamed unset
  by_missing_key : (t : RawMap) → lookup "transpiler_lib" t ≡ none → Unnamed (set t)

-- The configuration of the transpiler, and whether the cloud is to be told of it.
pub data Chooses (codec : Codec) : OptNil RawMap → TranspilerConfig → Bool → Type 0 where
  by_default :
      (ti : OptNil RawMap)
      → Unnamed ti
      → Chooses codec ti
          (record {
            transpiler_lib = some "qiskit";
            transpiler_options = some "{\"optimization_level\":1}";
            use_default = true;
          })
          true
  switched_off :
      (t : RawMap)
      → (lookup "transpiler_lib" t ≡ some none) ⊎ (lookup "transpiler_lib" t ≡ some (some "null"))
      → Chooses codec
          (set t)
          (record { transpiler_lib = none; transpiler_options = none; use_default = false })
          false
  decoded :
      (t : RawMap) (raw : String) (c : TranspilerConfig)
      → lookup "transpiler_lib" t ≡ some (some raw)
      → raw ≢ "null"
      → codec.decode_transpiler t ≡ some c
      → Chooses codec (set t) c false
  not_decoded :
      (t : RawMap) (raw : String)
      → lookup "transpiler_lib" t ≡ some (some raw)
      → raw ≢ "null"
      → codec.decode_transpiler t ≡ none
      → Chooses codec
          (set t)
          (record { transpiler_lib = none; transpiler_options = none; use_default = false })
          false

-- What the conversion of the job `j` promises.
abbrev pub Converts : Codec → CloudJob → Outcome Fault JobData → Type 0
Converts codec j (ok jd) =
    (jd.id ≡ j.job_id)
    × (jd.shots ≡ j.shots)
    × Means j.status jd.status
    × Named j.job_type jd.job_type
    × Takes codec j.job_type j.program jd.qasm
    × (c : TranspilerConfig) × (jd.transpiler ≡ some c)
    × Chooses codec j.transpiler_info c jd.needs_update_transpiler_info
Converts codec j (err e) = ⊥
Converts codec j panic = (j.program ≡ []) × (j.job_type ≢ multi_manual)

convert_from_cloud_status-Means : (st : CloudStatus) → Means st (convert_from_cloud_status st)
unfolding convert_from_cloud_status
convert_from_cloud_status-Means CloudStatus.submitted = as_submitted
convert_from_cloud_status-Means CloudStatus.ready = as_ready
convert_from_cloud_status-Means CloudStatus.running = as_running
convert_from_cloud_status-Means CloudStatus.succeeded = as_succeeded
convert_from_cloud_status-Means CloudStatus.failed = as_failed
convert_from_cloud_status-Means CloudStatus.cancelled = cancelled_as_failed

pub convert_job_type-Named : (t : CloudJobType) → Named t (convert_job_type t)
unfolding convert_job_type
convert_job_type-Named sampling = as_sampling
convert_job_type-Named estimation = as_estimation
convert_job_type-Named multi_manual = as_multi_manual
convert_job_type-Named sse = as_sse
convert_job_type-Named (other_type t) = as_normal t

module _ (codec : Codec) where
  programs-Takes :
      (ps : List String) (o : Option String)
      → codec.marshal_programs ps ≡ o
      → Takes codec multi_manual ps (or_else o "")
  programs-Takes ps (some q) e = joined ps q e
  programs-Takes ps none e = not_joined ps e

  program-cases :
      (t : CloudJobType) (p : List String)
      → ((q : String) × (convert_program codec t p ≡ ok q) × Takes codec t p q)
        ⊎ ((convert_program codec t p ≡ panic) × ((p ≡ []) × (t ≢ multi_manual)))
  unfolding convert_program
  program-cases multi_manual p = inl (_, refl, programs-Takes p (codec.marshal_programs p) refl)
  program-cases sampling [] = inr (refl, (refl, λ e. cc))
  program-cases estimation [] = inr (refl, (refl, λ e. cc))
  program-cases sse [] = inr (refl, (refl, λ e. cc))
  program-cases (other_type u) [] = inr (refl, (refl, λ e. cc))
  program-cases sampling (q ∷ p) = inl (q, refl, first sampling q p (λ e. cc))
  program-cases estimation (q ∷ p) = inl (q, refl, first estimation q p (λ e. cc))
  program-cases sse (q ∷ p) = inl (q, refl, first sse q p (λ e. cc))
  program-cases (other_type u) (q ∷ p) = inl (q, refl, first (other_type u) q p (λ e. cc))

  -- A library that is not null.
  given-Chooses :
      (t : RawMap) (raw : String)
      → lookup "transpiler_lib" t ≡ some (some raw)
      → raw ≢ "null"
      → Chooses codec (set t) (convert_to_transpiler_info codec t) false
  unfolding convert_to_transpiler_info
  given-Chooses t raw e n = by (codec.decode_transpiler t) refl
    where
      by :
          (o : Option TranspilerConfig)
          → codec.decode_transpiler t ≡ o
          → Chooses codec
              (set t)
              (or_else o
                (record { transpiler_lib = none; transpiler_options = none; use_default = false }))
              false
      by (some c) q = decoded t raw c e n q
      by none q = not_decoded t raw e n q

  named-Chooses :
      (t : RawMap) (o : Option (Option String))
      → lookup "transpiler_lib" t ≡ o
      → Chooses codec
          (set t)
          (convert_transpiler codec (set t)).0
          (convert_transpiler codec (set t)).1
  unfolding convert_transpiler use_transpiler use_default_transpiler
      convert_to_transpiler_info_from_onti
  named-Chooses t none e =
      rw (e, use_transpiler, use_default_transpiler) (by_default (set t) (by_missing_key t e))
  named-Chooses t (some none) e =
      rw (e, use_transpiler, use_default_transpiler) (switched_off t (inl e))
  named-Chooses t (some (some raw)) e = elim (Bool-cases (str_eq raw "null")) [
    | inl q ↦ rw (e, use_transpiler, q) (switched_off t (inr (rw (← (eq_iff raw "null").0 q) e)))
    | inr q ↦
        rw (e, use_transpiler, q, use_default_transpiler)
          (given-Chooses t raw e (λ h. ground (arith, eq_iff raw "null")))
  ]

  convert_transpiler-Chooses :
      (ti : OptNil RawMap)
      → Chooses codec ti (convert_transpiler codec ti).0 (convert_transpiler codec ti).1
  unfolding convert_transpiler use_transpiler use_default_transpiler
  convert_transpiler-Chooses null = by_default null by_null
  convert_transpiler-Chooses unset = by_default unset by_unset
  convert_transpiler-Chooses (set t) = named-Chooses t (lookup "transpiler_lib" t) refl

  -- The conversion keeps the ID and the shots. The status and the type keep their meaning, except that a cancelled job
  -- becomes FAILED and a type beside the four becomes normal. The program is the first one, or all of a multi_manual
  -- job as one text. Without a named library of a transpiler the default configuration is taken and the cloud is to
  -- be told of it; a library that is null turns the transpiler off, and otherwise the configuration is what is decoded,
  -- or the empty one. The conversion never returns an error, and it panics only for a job without a program that is
  -- not a multi_manual one.
  pub convert_from_cloud_job-Converts :
      (now : ℕ) (j : CloudJob) → Converts codec j (convert_from_cloud_job codec now j)
  unfolding convert_from_cloud_job
  convert_from_cloud_job-Converts now j = elim (program-cases j.job_type j.program) [
    | inl (q, e, k) ↦
        rw (e, convert_from_cloud_job)
          (
            refl,
            refl,
            convert_from_cloud_status-Means j.status,
            convert_job_type-Named j.job_type,
            k,
            (convert_transpiler codec j.transpiler_info).0,
            refl,
            convert_transpiler-Chooses j.transpiler_info,
          )
    | inr (e, h) ↦ rw (e, convert_from_cloud_job) h
  ]
