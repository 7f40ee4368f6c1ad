-- ===== src/Jobs/Sampling.antt =====
-- coreapp/sampling/job.go: `SamplingJob`, whose counts are mitigated where the job asks for it. The
-- mitigation information is a pointer, nil until the job is pre-processed.
pub mod Scheduled
use oqtopus_engine.Prelude.{
  ℕ, Bool, true, false, ◌&&◌, Option, none, some, Outcome, ok, err, panic, ◌≡◌, refl,
}
use oqtopus_engine.Core.Status.{failed, is_failed, is_succeeded}
use oqtopus_engine.Core.Data.{JobData, need_transpiling, set_failure, clone_data}
use oqtopus_engine.Core.Job.{Call, done, Run, returned, panicked, JobInterface}
use oqtopus_engine.Mitigation.{
  Json, MitigationInfo, Mitigator, asks_mitigation, new_mitigation_info_from_job_data,
  pseudo_inverse_mitigation,
}

pub record SamplingJob : Type 0 where
  pub job_data : JobData
  pub mitigation_info : Option MitigationInfo

-- What the container resolves, and what the job calls.
pub record Container : Type 0 where
  pub transpile : JobData → Call JobData
  pub send : JobData → Call JobData
  pub json : Json
  pub mitigator : Mitigator
  pub now : ℕ

unfoldable pub pre_process_impl : Container → JobData → Call JobData
unfolding need_transpiling
pre_process_impl c jd = elim (need_transpiling jd) [
  | ok true ↦ c.transpile jd
  | ok false ↦ done jd
  | err e ↦ Call.failed e jd
  | panic ↦ Call.panicked jd
]

unfoldable pub pre_process : Container → SamplingJob → Run SamplingJob
unfolding pre_process_impl set_failure new_mitigation_info_from_job_data
pre_process c j = elim (pre_process_impl c j.job_data) [
  | done d ↦
      returned (record {
        job_data = d;
        mitigation_info = some (new_mitigation_info_from_job_data c.json d);
      })
  | Call.failed e d ↦ returned (record j { job_data = set_failure c.now e d })
  | Call.panicked d ↦ panicked (record j { job_data = d })
]

unfoldable pub process : Container → SamplingJob → Run SamplingJob
process c j = elim (c.send j.job_data) [
  | done d ↦ returned (record j { job_data = d })
  | Call.failed e d ↦ returned (record j { job_data = record d { status = failed } })
  | Call.panicked d ↦ panicked (record j { job_data = d })
]

-- `shouldMitigate`, which is read again from the raw text.
unfoldable pub should_mitigate : Json → MitigationInfo → Bool
unfolding asks_mitigation
should_mitigate json i = elim i.property_raw [
  | none ↦ false
  | some raw ↦ json.valid raw && asks_mitigation json raw
]

-- A call on the job's data.
unfoldable pub on_data : SamplingJob → Run JobData → Run SamplingJob
on_data j (returned d) = returned (record j { job_data = d })
on_data j (panicked d) = panicked (record j { job_data = d })

unfoldable pub post_process : Container → SamplingJob → Run SamplingJob
unfolding should_mitigate pseudo_inverse_mitigation on_data
post_process c j = elim j.mitigation_info [
  | none ↦ panicked j
  | some i ↦
      let j1 = record j { mitigation_info = some (record i { mitigated = true }) } in
      elim (should_mitigate c.json i) [
        | true ↦ on_data j1 (pseudo_inverse_mitigation c.mitigator j1.job_data)
        | false ↦ returned j1
      ]
]

unfoldable pub is_finished : SamplingJob → Option Bool
is_finished j = elim (is_failed j.job_data.status) [
  | true ↦ some true
  | false ↦ elim j.mitigation_info [
    | none ↦ none
    | some i ↦ elim i.need_to_be_mitigated [
      | true ↦ some i.mitigated
      | false ↦ some (is_succeeded j.job_data.status)
    ]
  ]
]

-- The copy has no mitigation information.
unfoldable pub clone : SamplingJob → SamplingJob
unfolding clone_data
clone j = record { job_data = clone_data j.job_data; mitigation_info = none }

pub clone-data : (j : SamplingJob) → (clone j).job_data ≡ j.job_data
unfolding clone clone_data
clone-data j = refl

abbrev pub sampling_job : Container → JobInterface SamplingJob
sampling_job c = record {
  pre_process = pre_process c;
  process = process c;
  post_process = post_process c;
  is_finished = is_finished;
  job_data = λ j. j.job_data;
  with_job_data = λ j d. record j { job_data = d };
  clone = clone;
  job_data-with = λ j d. refl;
  job_data-clone = clone-data;
}
