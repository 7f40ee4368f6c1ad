-- ===== src/Core/Data.antt =====
-- coreapp/core/data.go: the data of a job and its copies. A float32 is carried as its bits, a time
-- as a number, raw JSON as its text; `none` is Go's nil.
use oqtopus_engine.Prelude.{
  ℕ, String, Bool, true, false, Option, none, some, [], ◌∷◌, Outcome, ok, panic, ◌>>=◌, or_panic,
  is_some, str_eq, if◌then◌else◌,
}
use oqtopus_engine.Prelude.Int.{ℤ, pos}
use oqtopus_engine.Prelude.Dict.{Bytes, Dict}
use oqtopus_engine.Core.Fault.{Fault}
use oqtopus_engine.Core.Status.{Status, submitted, failed, is_succeeded, is_failed}
use oqtopus_engine.Core.Mapping.{VirtualPhysicalMappingMap}

abbrev pub Counts : Type 0
Counts = Dict Bytes ℕ

-- The index of a circuit, and its counts.
abbrev pub DividedResult : Type 0
DividedResult = Dict ℕ Counts

-- `Result.Message`: a text of a service, or an error's.
pub data Message : Type 0 where
  text : String → Message
  of_fault : Fault → Message

pub record TranspilerConfig : Type 0 where
  pub transpiler_lib : Option String
  pub transpiler_options : Option String
  pub use_default : Bool

pub record TranspilerInfo : Type 0 where
  pub stats_raw : Option String
  pub physical_virtual_mapping : Dict ℕ ℕ
  pub virtual_physical_mapping_raw : Option String
  pub virtual_physical_mapping_map : VirtualPhysicalMappingMap

pub record Estimation : Type 0 where
  pub exp_value : ℕ
  pub stds : ℕ

pub record JobResult : Type 0 where
  pub counts : Counts
  pub divided_result : Option DividedResult
  pub transpiler_info : Option TranspilerInfo
  pub estimation : Option Estimation
  pub message : Message
  pub execution_time : ℕ

pub record JobData : Type 0 where
  pub id : String
  pub status : Status
  pub shots : ℤ
  pub transpiler : Option TranspilerConfig
  pub qasm : String
  pub transpiled_qasm : String
  pub result : JobResult
  pub job_type : String
  pub created : ℕ
  pub ended : ℕ
  pub info : String
  pub mitigation_info : String
  pub use_job_info_update : Bool
  pub needs_update_transpiler_info : Bool

unfoldable pub new_result : JobResult
new_result = record {
  counts = [];
  divided_result = none;
  transpiler_info = some (record {
    stats_raw = none;
    physical_virtual_mapping = [];
    virtual_physical_mapping_raw = none;
    virtual_physical_mapping_map = [];
  });
  estimation = none;
  message = text "";
  execution_time = 0;
}

-- The zero value of `Status` is SUBMITTED.
unfoldable pub new_job_data : ℕ → JobData
unfolding new_result
new_job_data now = record {
  id = "";
  status = submitted;
  shots = pos 0;
  transpiler = none;
  qasm = "";
  transpiled_qasm = "";
  result = new_result;
  job_type = "";
  created = now;
  ended = 0;
  info = "";
  mitigation_info = "";
  use_job_info_update = false;
  needs_update_transpiler_info = false;
}

-- `JobData.NeedTranspiling`, which reads through the pointer to the transpiler's configuration.
unfoldable pub need_transpiling : JobData → Outcome Fault Bool
need_transpiling jd = or_panic jd.transpiler >>= λ c. ok (is_some c.transpiler_lib)

-- `JobData.Clone`: a deep copy, whose last three assignments change nothing.
unfoldable pub clone_data : JobData → JobData
clone_data jd = jd

-- The last loop of `cloneTranspilerInfo`: an entry that is copied is written to a nil map.
copy_mapping_map : VirtualPhysicalMappingMap → Outcome Fault VirtualPhysicalMappingMap
copy_mapping_map [] = ok []
copy_mapping_map (e ∷ m) = panic

-- `cloneTranspilerInfo`, which does not copy `StatsRaw`.
unfoldable pub clone_transpiler_info : Option TranspilerInfo → Outcome Fault TranspilerInfo
unfolding copy_mapping_map
clone_transpiler_info info = or_panic info >>= λ i.
    copy_mapping_map i.virtual_physical_mapping_map >>= λ m.
    ok (record i { stats_raw = none; virtual_physical_mapping_map = m })

clone_estimation_if : Bool → Option Estimation → Outcome Fault (Option Estimation)
clone_estimation_if true e = or_panic e >>= λ x. ok (some x)
clone_estimation_if false e = ok none

-- `CloneJobData`: a new job data with these fields of the old.
unfoldable pub clone_job_data : ℕ → JobData → Outcome Fault JobData
unfolding clone_transpiler_info clone_estimation_if new_job_data
clone_job_data now i =
    let o = new_job_data now in
    clone_transpiler_info i.result.transpiler_info >>= λ ti.
    clone_estimation_if (str_eq i.job_type "estimation") i.result.estimation >>= λ e. ok (record o {
      id = i.id;
      status = i.status;
      shots = i.shots;
      transpiler = i.transpiler;
      qasm = i.qasm;
      transpiled_qasm = i.transpiled_qasm;
      result = record (o.result) {
        counts = i.result.counts;
        transpiler_info = some ti;
        estimation = e;
      };
      job_type = i.job_type;
      created = i.created;
      ended = i.ended;
    })

-- `SetFailureWithErrorToJobData`, at the time `now`.
unfoldable pub set_failure : ℕ → Fault → JobData → JobData
set_failure now e jd = record jd {
  result = record (jd.result) { message = of_fault e };
  status = failed;
  ended = now;
}

-- The test that several kinds of job share.
abbrev pub is_done : Status → Bool
is_done st = if is_succeeded st then true else is_failed st
