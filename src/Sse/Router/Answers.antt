-- ===== src/Sse/Router/Answers.antt =====
-- What a program in a container is answered by `TranspileAndExec`.
use oqtopus_engine.Prelude.{
  String, Bool, true, false, Option, none, some, Outcome, ok, err, panic, ◌≡◌, refl, inl, str_eq,
  if◌then◌else◌,
}
use oqtopus_engine.Prelude.Int.{pos, ltb_ℤ}
use oqtopus_engine.Core.Fault.{Fault, shots_not_positive, shots_over_limit}
use oqtopus_engine.Core.Data.{JobData}
use oqtopus_engine.Core.Device.{DeviceInfo}
use oqtopus_engine.Core.Manager.{JobClass}
use oqtopus_engine.Sse.Router.{
  Services, Reply, failed_response, reject, validate_shots, to_job, run_job, validate_job,
  transpile_and_exec, invalid_shots, invalid_qasm, invalid_data, empty_data,
}
use oqtopus_engine.Sse.Router.Runs.{Answers, at_request, run_job-Answers}

module _ (s : Services) (body : String) where
  module _ (k : JobClass) (job : JobData) (p : to_job s body ≡ ok (k, job)) where
    valid_shots :
        (o : Option DeviceInfo)
        → validate_shots job.shots o ≡ none
        → (d : DeviceInfo) × (o ≡ some d)
          × (ltb_ℤ job.shots (pos 1) ≡ false)
          × (ltb_ℤ d.max_shots job.shots ≡ false)
    unfolding validate_shots
    valid_shots none e = cc
    valid_shots (some d) e = by (ltb_ℤ job.shots (pos 1)) (ltb_ℤ d.max_shots job.shots) refl refl e
      where
        by :
            (a b : Bool)
            → ltb_ℤ job.shots (pos 1) ≡ a
            → ltb_ℤ d.max_shots job.shots ≡ b
            → ((if a
                  then some (shots_not_positive job.shots)
                  else if b
                  then some (shots_over_limit job.shots d.max_shots)
                  else none)
                ≡ none)
            → (x : DeviceInfo) × (some d ≡ some x)
              × (ltb_ℤ job.shots (pos 1) ≡ false)
              × (ltb_ℤ x.max_shots job.shots ≡ false)
        by true b u v e = cc
        by false true u v e = cc
        by false false u v e = (d, refl, u, v)

    validate_job-Answers : Answers s body (validate_job s body job)
    unfolding validate_job
    validate_job-Answers = by (validate_shots job.shots s.device) refl
      where
        checked :
            (o : Option Fault)
            → validate_shots job.shots s.device ≡ none
            → s.validate job.qasm ≡ o
            → Answers s body (elim o as (λ _. Reply) [
              | some f ↦ reject failed_response (invalid_qasm f)
              | none ↦ run_job s body job
            ])
        checked (some f) v e = inl (refl, refl)
        checked none v e =
            let (d, on, lo, hi) = valid_shots s.device v in
            run_job-Answers s body k job (record {
              parsed = p;
              device = d;
              on_device = on;
              at_least = lo;
              at_most = hi;
              valid = e;
            })

        by :
            (o : Option Fault)
            → validate_shots job.shots s.device ≡ o
            → Answers s body (elim o as (λ _. Reply) [
              | some f ↦ reject failed_response (invalid_shots f)
              | none ↦ elim (s.validate job.qasm) as (λ _. Reply) [
                | some f ↦ reject failed_response (invalid_qasm f)
                | none ↦ run_job s body job
              ]
            ])
        by (some f) e = inl (refl, refl)
        by none e = checked (s.validate job.qasm) e refl

  -- `TranspileAndExec` never returns an error: for every request text and all services it gives a response, or it
  -- panics. It panics only where the conversion of the text to a job panics (as it does for null), where the transpiler's
  -- configuration is not an object, where a service panics, or where the job comes back from the device without
  -- transpiler information. A response is a refusal in status FAILED without a result, or it is of a run: the shots
  -- of the job were from 1 to the device's limit, its program was found valid, the job was sent with a
  -- configuration or as the transpiler returned it, and the response has the status that the device left, which is
  -- not FAILED, and the program that was sent.
  pub transpile_and_exec-Answers : Answers s body (transpile_and_exec s body)
  unfolding transpile_and_exec
  transpile_and_exec-Answers = by (str_eq body "") (to_job s body) refl
    where
      by :
          (b : Bool) (o : Outcome Fault (JobClass × JobData))
          → to_job s body ≡ o
          → Answers s body (
              if b then reject failed_response empty_data else elim o as (λ _. Reply) [
                | err f ↦ reject failed_response invalid_data
                | panic ↦ panic
                | ok (k, jd) ↦ validate_job s body jd
              ])
      by true o e = inl (refl, refl)
      by false (err f) e = inl (refl, refl)
      by false panic e = at_request e
      by false (ok (k, jd)) e = validate_job-Answers k jd e
