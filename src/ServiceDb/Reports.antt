-- ===== src/ServiceDb/Reports.antt =====
-- What the cloud is told of a job.
use oqtopus_engine.Prelude.{
  String, Bool, true, false, some, List, [], ◌∷◌, Outcome, ok, err, if◌then◌else◌, ◌≡◌, refl, ap,
  ◌∙◌, sym, subst, arith,
}
use oqtopus_engine.Core.Fault.{Fault, external}
use oqtopus_engine.Core.Status.{
  Status, submitted, ready, running, succeeded, failed, cancelled, is_running,
}
use oqtopus_engine.Core.Data.{
  JobData, JobResult, need_transpiling, TranspilerInfo, TranspilerConfig,
}
use oqtopus_engine.Converter.{convert_to_api_status}
use oqtopus_engine.Converter.Cloud.{unset}
use oqtopus_engine.Converter.Outgoing.{Encoder, OutgoingJob, convert_to_cloud_job, extract_combined}
use oqtopus_engine.ServiceDb.{
  Request, Reply, JobInfoUpdate, patch_job, patch_job_info, make, update_status, update_info,
  patch_info, job_info_update, put_transpiler_info, update, sent_result,
}

-- What the conversion keeps of the job data.
record Kept (j d : JobData) : Type 0 where
  same_id : d.id ≡ j.id
  same_flag : d.use_job_info_update ≡ j.use_job_info_update
  same_needs : d.needs_update_transpiler_info ≡ j.needs_update_transpiler_info
  same_transpiler : d.transpiler ≡ j.transpiler
  same_result : d.result ≡ j.result

extract_combined-Kept : (encoder : Encoder) (j : JobData) → Kept j (extract_combined encoder j).0
unfolding extract_combined
extract_combined-Kept encoder j = record {
  same_id = ground arith;
  same_flag = ground arith;
  same_needs = ground arith;
  same_transpiler = ground arith;
  same_result = ground arith;
}

status_requests :
    (accepts : Request → Bool) (id : String) (st : Status)
    → (update_status accepts id (convert_to_api_status st)).0
      ≡ (if is_running st then patch_job id ∷ [] else [])
unfolding update_status convert_to_api_status make
status_requests accepts id submitted = refl
status_requests accepts id ready = refl
status_requests accepts id running = refl
status_requests accepts id succeeded = refl
status_requests accepts id failed = refl
status_requests accepts id cancelled = refl

by_flag_on : (b : Bool) (x y : Reply) → b ≡ true → (if b then x else y) ≡ x
by_flag_on b x y h = ground arith

by_flag : (b : Bool) (x y : Reply) → b ≡ false → (if b then x else y) ≡ y
by_flag b x y h = ground arith

module _ (encoder : Encoder) (accepts : Request → Bool) where
  -- Without the flag for the full update, the cloud is told that a job runs, and nothing else: for any other
  -- status, a final one too, a call makes no request.
  pub update_flag_off :
      (jd : JobData)
      → jd.use_job_info_update ≡ false
      → (update encoder accepts jd).0 ≡ (if is_running jd.status then patch_job jd.id ∷ [] else [])
  unfolding update convert_to_cloud_job
  update_flag_off jd h =
      let k = extract_combined-Kept encoder jd in
      ap (λ (r : Reply). r.0) (by_flag _ _ _ (k.same_flag ∙ h))
      ∙ status_requests accepts (extract_combined encoder jd).0.id jd.status
      ∙ rw (k.same_id) refl

  -- The request that a full update starts with.
  pub record IsFull (jd : JobData) (r : Reply) : Type 0 where
    pub update_sent : JobInfoUpdate
    pub rest : List Request
    pub first : r.0 ≡ patch_job_info jd.id update_sent ∷ rest
    pub status_sent : update_sent.overwrite_status ≡ convert_to_api_status jd.status
    pub message_sent : update_sent.message ≡ jd.result.message
    pub no_result : jd.status ≡ failed → update_sent.result ≡ unset

  failed_result :
      (st : Status) (jd : JobData) (c : OutgoingJob) (b : Bool)
      → c.status ≡ convert_to_api_status st
      → st ≡ failed
      → (job_info_update jd c b).result ≡ unset
  unfolding job_info_update sent_result convert_to_api_status
  failed_result failed jd c b e h = rw e refl
  failed_result submitted jd c b e h = absurd (ground arith)
  failed_result ready jd c b e h = absurd (ground arith)
  failed_result running jd c b e h = absurd (ground arith)
  failed_result succeeded jd c b e h = absurd (ground arith)
  failed_result cancelled jd c b e h = absurd (ground arith)

  patched :
      (jd d : JobData) (c : OutgoingJob) (b : Bool)
      → d.id ≡ jd.id
      → c.status ≡ convert_to_api_status jd.status
      → c.message ≡ jd.result.message
      → IsFull jd (patch_info accepts d c b)
  unfolding patch_info job_info_update
  patched jd d c b i s m = by (accepts r) d.needs_update_transpiler_info
    where
      u : JobInfoUpdate
      u = job_info_update d c b

      r : Request
      r = patch_job_info d.id u

      full : (rs : List Request) (o : Outcome Fault (Unit {0})) → IsFull jd (r ∷ rs, o)
      full rs o = record {
        update_sent = u;
        rest = rs;
        first = rw i refl;
        status_sent = s;
        message_sent = m;
        no_result = failed_result jd.status d c b s;
      }

      by :
          (accepted needs : Bool)
          → IsFull jd (
              if accepted
              then (if needs
                  then (let (rs, o) = put_transpiler_info accepts c in (r ∷ rs, o))
                  else (r ∷ [], ok tt))
              else (r ∷ [], err (external "api")))
      by true true = full _ _
      by true false = full _ _
      by false needs = full _ _

  info_sent :
      (jd d : JobData) (c : OutgoingJob) (t : TranspilerConfig) (ti : TranspilerInfo)
      → d.id ≡ jd.id
      → d.transpiler ≡ some t
      → d.result.transpiler_info ≡ some ti
      → c.status ≡ convert_to_api_status jd.status
      → c.message ≡ jd.result.message
      → IsFull jd (update_info accepts d c)
  unfolding update_info need_transpiling
  info_sent jd d c t ti i a b s m = rw (a, b) (patched jd d c _ i s m)

  -- With the flag for the full update, a job with a transpiler configuration and transpiler information is
  -- reported: the first request of the call patches the job's information with its status and its message,
  -- and for a FAILED job without a result.
  pub update_flag_on-IsFull :
      (jd : JobData) (t : TranspilerConfig) (ti : TranspilerInfo)
      → jd.use_job_info_update ≡ true
      → jd.transpiler ≡ some t
      → jd.result.transpiler_info ≡ some ti
      → IsFull jd (update encoder accepts jd)
  unfolding update convert_to_cloud_job
  update_flag_on-IsFull jd t ti h a b =
      let k = extract_combined-Kept encoder jd in
      subst (IsFull jd) (sym (by_flag_on _ _ _ (k.same_flag ∙ h))) (
        info_sent jd (extract_combined encoder jd).0 (convert_to_cloud_job encoder jd).1 t ti
          k.same_id (k.same_transpiler ∙ a)
          (ap (λ (r : JobResult). r.transpiler_info) k.same_result ∙ b) refl refl)
