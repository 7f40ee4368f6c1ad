-- ===== src/Core/Manager.antt =====
-- coreapp/core/job.go: `validateJobParam` and `JobManager`, the factory of jobs. A registered job is
-- an empty value of its class; `reflect.TypeOf` is the class. What the validation asks of the system
-- (the device's limit on shots, the transpiler's libraries) is the record `Environment`.
pub mod Laws
pub mod Creation
use oqtopus_engine.Prelude.{
  ℕ, String, Bool, true, false, ◌||◌, Option, none, some, List, [], ◌∷◌, ◌++◌, Outcome, ok, err,
  panic, ◌>>=◌, or_panic, str_eq, if◌then◌else◌,
}
use oqtopus_engine.Prelude.Int.{ℤ, pos, leb_ℤ, ltb_ℤ}
use oqtopus_engine.Core.Fault.{
  Fault, job_id_is_empty, shots_not_positive, shots_over_limit, transpiler_lib_not_acceptable,
  job_type_not_registered, already_registered,
}
use oqtopus_engine.Core.Data.{TranspilerConfig, JobData, new_job_data}

-- The types that implement `Job`.
pub data JobClass : Type 0 where
  normal_job unknown_job sampling_job estimation_job manual_job sse_job : JobClass

abbrev pub class_beq : JobClass → JobClass → Bool
class_beq normal_job normal_job = true
class_beq unknown_job unknown_job = true
class_beq sampling_job sampling_job = true
class_beq estimation_job estimation_job = true
class_beq manual_job manual_job = true
class_beq sse_job sse_job = true
class_beq _ _ = false

-- `JobType()` of an empty job; that of an `UnknownJob` reads its job data, which is nil.
unfoldable pub job_type : JobClass → Outcome Fault String
job_type normal_job = ok "normal"
job_type unknown_job = panic
job_type sampling_job = ok "sampling"
job_type estimation_job = ok "estimation_job"
job_type manual_job = ok "multi_manual"
job_type sse_job = ok "sse"

pub record JobManager : Type 0 where
  pub acceptable_jobs : List JobClass

abbrev pub has_class : List JobClass → JobClass → Bool
has_class [] c = false
has_class (t ∷ ts) c = class_beq t c || has_class ts c

-- The body of the loop of `RegisterJob` for one job.
unfoldable pub register_one : JobClass → JobManager → Outcome Fault JobManager
unfolding job_type
register_one c m = job_type c >>= λ name.
    if has_class m.acceptable_jobs c
    then err (already_registered name)
    else ok (record m { acceptable_jobs = m.acceptable_jobs ++ c ∷ [] })

-- `NewJobManager`: an error gives no manager.
unfoldable pub register_all : List JobClass → JobManager → Outcome Fault JobManager
unfolding register_one
register_all [] m = ok m
register_all (c ∷ cs) m = register_one c m >>= register_all cs

unfoldable pub new_job_manager : List JobClass → Outcome Fault JobManager
unfolding register_all
new_job_manager jobs = register_all jobs (record { acceptable_jobs = [] })

-- `AcceptableJobTypes`.
unfoldable pub acceptable_job_types : List JobClass → Outcome Fault (List String)
unfolding job_type
acceptable_job_types [] = ok []
acceptable_job_types (c ∷ cs) =
    job_type c >>= λ name. acceptable_job_types cs >>= λ names. ok (name ∷ names)

pub record JobParam : Type 0 where
  pub job_id : String
  pub qasm : String
  pub shots : ℤ
  pub transpiler : Option TranspilerConfig
  pub job_type : String

pub record Environment : Type 0 where
  pub max_shots : ℤ
  pub is_acceptable_transpiler_lib : String → Bool

abbrev pub normal_type : String
normal_type = "normal"

-- The last part of `validateJobParam`: the library of the transpiler.
unfoldable pub check_transpiler : Environment → Option TranspilerConfig → Outcome Fault (Unit {0})
check_transpiler env t = or_panic t >>= λ c. elim c.transpiler_lib [
  | none ↦ ok tt
  | some lib ↦
      if env.is_acceptable_transpiler_lib lib
      then ok tt
      else err (transpiler_lib_not_acceptable lib)
]

-- The check of the number of shots.
unfoldable pub check_shots : Environment → ℤ → Outcome Fault (Unit {0})
check_shots env shots =
    if leb_ℤ shots (pos 0)
    then err (shots_not_positive shots)
    else if ltb_ℤ env.max_shots shots
    then err (shots_over_limit shots env.max_shots)
    else ok tt

unfoldable pub validate_job_param : Environment → JobParam → Outcome Fault (Unit {0})
unfolding check_transpiler check_shots
validate_job_param env p =
    if str_eq p.job_id ""
    then err job_id_is_empty
    else (if str_eq p.job_type normal_type then check_shots env p.shots else ok tt) >>= λ _.
        check_transpiler env p.transpiler

-- The loop of `NewJobFromJobData`: the first registered class of this type.
unfoldable pub find_class : List JobClass → String → Outcome Fault JobClass
unfolding job_type
find_class [] ty = err (job_type_not_registered ty)
find_class (c ∷ cs) ty = job_type c >>= λ name. if str_eq name ty then ok c else find_class cs ty

-- The default job type.
unfoldable pub with_default_type : JobData → JobData
with_default_type jd = if str_eq jd.job_type "" then record jd { job_type = normal_type } else jd

-- A new job is a class, and the job data that is handed to its `New`.
unfoldable pub new_job_from_job_data : JobManager → JobData → Outcome Fault (JobClass × JobData)
unfolding find_class with_default_type
new_job_from_job_data m jd =
    let d = with_default_type jd in find_class m.acceptable_jobs d.job_type >>= λ c. ok (c, d)

unfoldable pub new_job_from_job_data_with_validation :
    Environment → JobManager → JobData → Outcome Fault (JobClass × JobData)
unfolding new_job_from_job_data with_default_type validate_job_param
new_job_from_job_data_with_validation env m jd =
    let d = with_default_type jd in
    validate_job_param env (record {
      job_id = d.id;
      qasm = d.qasm;
      shots = d.shots;
      transpiler = d.transpiler;
      job_type = d.job_type;
    })
    >>= λ _. new_job_from_job_data m d

unfoldable pub new_job : JobManager → ℕ → JobParam → Outcome Fault (JobClass × JobData)
unfolding new_job_from_job_data new_job_data
new_job m now p = new_job_from_job_data m (record (new_job_data now) {
  id = p.job_id;
  qasm = p.qasm;
  shots = p.shots;
  transpiler = p.transpiler;
  job_type = p.job_type;
})

unfoldable pub new_job_with_validation :
    Environment → JobManager → ℕ → JobParam → Outcome Fault (JobClass × JobData)
unfolding new_job validate_job_param
new_job_with_validation env m now p =
    let p' = (if str_eq p.job_type "" then record p { job_type = normal_type } else p) in
    validate_job_param env p' >>= λ _. new_job m now p'
