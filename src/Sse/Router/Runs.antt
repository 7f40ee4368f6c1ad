-- ===== src/Sse/Router/Runs.antt =====
-- What a program in a container may be answered, and the steps of `TranspileAndExec` after the validation.
use oqtopus_engine.Prelude.{
  String, Bool, true, false, Option, none, some, is_some, Outcome, ok, err, panic, ◌>>=◌, ◌≡◌, refl,
  ◌⊎◌, inl, inr, or_panic, str_eq, ltb, if◌then◌else◌,
}
use oqtopus_engine.Prelude.Int.{pos, ltb_ℤ}
use oqtopus_engine.Core.Fault.{Fault}
use oqtopus_engine.Core.Status.{failed, is_failed, to_string}
use oqtopus_engine.Core.Data.{JobData, TranspilerConfig, TranspilerInfo}
use oqtopus_engine.Core.Device.{DeviceInfo}
use oqtopus_engine.Core.Job.{Call, done}
use oqtopus_engine.Core.Manager.{JobClass}
use oqtopus_engine.Converter.{default_transpiler_config}
use oqtopus_engine.Sse.Router.{
  Services, Response, Reply, TranspilerValue, missing, null, not_a_map, entries, failed_response,
  reject, marshal_failed, of_result, execute_failed, transpile_failed, transpile_error,
  text_or_blank, raw_or_empty, to_job, use_default_transpiler, choose_config, write_reply, execute,
  transpile_first, run_job,
}

module _ (s : Services) (body : String) where
  -- The ways to a panic.
  pub data MayPanic : Type 0 where
    at_request : to_job s body ≡ panic → MayPanic
    at_config : s.unmarshal_map body ≡ some not_a_map → MayPanic
    at_transpile : (x d : JobData) → s.transpile x ≡ Call.panicked d → MayPanic
    at_send : (x d : JobData) → s.send x ≡ Call.panicked d → MayPanic
    without_info : (x d : JobData) → s.send x ≡ done d → d.result.transpiler_info ≡ none → MayPanic

  -- The request is of a job within the limits of the device.
  pub record Accepted (k : JobClass) (job : JobData) : Type 0 where
    pub parsed : to_job s body ≡ ok (k, job)
    pub device : DeviceInfo
    pub on_device : s.device ≡ some device
    pub at_least : ltb_ℤ job.shots (pos 1) ≡ false
    pub at_most : ltb_ℤ device.max_shots job.shots ≡ false
    pub valid : s.validate job.qasm ≡ none

  -- The job as it is sent, which is the job with a configuration, or what the transpiler made of it.
  abbrev pub Prepared : JobData → JobData → Type 0
  Prepared job sent =
      (c : TranspilerConfig) × ((sent ≡ record job { transpiler = some c })
        ⊎ (s.transpile (record job { transpiler = some c }) ≡ done sent))

  -- The device ran the job, and the response is of that run.
  pub record Ran (r : Response) : Type 0 where
    pub class : JobClass
    pub job : JobData
    pub accepted : Accepted class job
    pub sent : JobData
    pub prepared : Prepared job sent
    pub left : JobData
    pub run : s.send sent ≡ done left
    pub completed : is_failed left.status ≡ false
    pub status_is : r.status ≡ to_string left.status
    pub program_is : r.transpiled_qasm ≡ sent.transpiled_qasm

  -- A refusal has no result.
  abbrev pub Refused : Response → Type 0
  Refused r = (r.status ≡ to_string failed) × (r.result ≡ "")

  abbrev pub Answers : Reply → Type 0
  Answers (ok r) = Refused r ⊎ Ran r
  Answers (err f) = ⊥
  Answers panic = MayPanic

  module _ (k : JobClass) (job : JobData) (a : Accepted k job) where
    module _ (sent : JobData) (p : Prepared job sent) (r : Response) (h : Refused r)
        (q : r.transpiled_qasm ≡ sent.transpiled_qasm) where
      write_reply-Answers :
          (d : JobData)
          → s.send sent ≡ done d
          → is_failed d.status ≡ false
          → Answers (write_reply s r d)
      unfolding write_reply
      write_reply-Answers d e n = by d.result.transpiler_info refl
        where
          marshalled :
              (o : Option String)
              → Answers (elim o as (λ _. Reply) [
                | none ↦ reject r marshal_failed
                | some t ↦ ok (record r {
                  result = t;
                  notice = of_result d.result.message;
                  status = to_string d.status;
                })
              ])
          marshalled none = inl h
          marshalled (some t) = inr (record {
            class = k;
            job = job;
            accepted = a;
            sent = sent;
            prepared = p;
            left = d;
            run = e;
            completed = n;
            status_is = refl;
            program_is = q;
          })

          by :
              (o : Option TranspilerInfo)
              → d.result.transpiler_info ≡ o
              → Answers (
                  or_panic o >>= λ ti.
                  elim (s.marshal_result (record {
                    counts = d.result.counts;
                    transpiler_info = record {
                      stats = raw_or_empty ti.stats_raw;
                      virtual_physical_mapping = raw_or_empty ti.virtual_physical_mapping_raw;
                    };
                    message = d.result.message;
                  }))
                    as (λ _. Reply) [
                      | none ↦ reject r marshal_failed
                      | some t ↦ ok (record r {
                        result = t;
                        notice = of_result d.result.message;
                        status = to_string d.status;
                      })
                    ])
          by none i = without_info sent d e i
          by (some ti) i = marshalled (
              s.marshal_result (record {
                counts = d.result.counts;
                transpiler_info = record {
                  stats = raw_or_empty ti.stats_raw;
                  virtual_physical_mapping = raw_or_empty ti.virtual_physical_mapping_raw;
                };
                message = d.result.message;
              }))

    execute-Answers :
        (sent : JobData) (p : Prepared job sent) (r : Response)
        → Refused r
        → Answers (execute s r sent)
    unfolding execute
    execute-Answers sent p r h = by (s.send sent) refl
      where
        r1 : Response
        r1 = record r { transpiled_qasm = sent.transpiled_qasm }

        ended :
            (d : JobData) (b : Bool)
            → s.send sent ≡ done d
            → is_failed d.status ≡ b
            → Answers (if b then reject r1 execute_failed else write_reply s r1 d)
        ended d true e n = inl h
        ended d false e n = write_reply-Answers sent p r1 h refl d e n

        by :
            (o : Call JobData)
            → s.send sent ≡ o
            → Answers (elim o as (λ _. Reply) [
              | Call.failed f d ↦ reject r1 execute_failed
              | Call.panicked d ↦ panic
              | done d ↦ if is_failed d.status then reject r1 execute_failed else write_reply s r1 d
            ])
        by (done d) e = ended d (is_failed d.status) e refl
        by (Call.failed f d) e = inl h
        by (Call.panicked d) e = at_send sent d e

    transpile_first-Answers :
        (c : TranspilerConfig) (r : Response)
        → Refused r
        → Answers (transpile_first s r c (record job { transpiler = some c }))
    unfolding transpile_first
    transpile_first-Answers c r h = by (is_some c.transpiler_lib) (s.transpile jd) refl
      where
        jd : JobData
        jd = record job { transpiler = some c }

        ended :
            (d : JobData) (b : Bool)
            → s.transpile jd ≡ done d
            → Answers (if b then reject r transpile_failed else execute s r d)
        ended d true e = inl h
        ended d false e = execute-Answers d (c, inr e) r h

        by :
            (b : Bool) (o : Call JobData)
            → s.transpile jd ≡ o
            → Answers (
                if b
                then elim o as (λ _. Reply) [
                  | Call.failed f d ↦ reject r (transpile_error f)
                  | Call.panicked d ↦ panic
                  | done d ↦ if is_failed d.status then reject r transpile_failed else execute s r d
                ]
                else execute s r jd)
        by true (done d) e = ended d (is_failed d.status) e
        by true (Call.failed f d) e = inl h
        by true (Call.panicked d) e = at_transpile jd d e
        by false o e = execute-Answers jd (c, inl refl) r h

    abbrev configured : Outcome Fault TranspilerConfig → Reply
    configured o = o >>= λ c.
        transpile_first s
          (record failed_response { transpiler_info = text_or_blank (s.marshal_transpiler c) }) c
          (record job { transpiler = some c })

    configured-Answers : (c : TranspilerConfig) → Answers (configured (ok c))
    configured-Answers c =
        transpile_first-Answers c
          (record failed_response { transpiler_info = text_or_blank (s.marshal_transpiler c) })
          (refl, refl)

    chosen-Answers : (o : Option TranspilerConfig) → Answers (configured (choose_config s body o))
    unfolding choose_config use_default_transpiler
    chosen-Answers none = configured-Answers default_transpiler_config
    chosen-Answers (some c) = by (str_eq body "") (s.unmarshal_map body) refl
      where
        picked : (b : Bool) → Answers (configured (ok (if b then default_transpiler_config else c)))
        picked b = configured-Answers (if b then default_transpiler_config else c)

        by :
            (b : Bool) (v : Option TranspilerValue)
            → s.unmarshal_map body ≡ v
            → Answers (
                configured (
                  (if b then ok true else elim v [
                    | none ↦ ok true
                    | some missing ↦ ok false
                    | some null ↦ ok true
                    | some not_a_map ↦ panic
                    | some (entries n) ↦ ok (ltb n 1)
                  ])
                  >>= λ x. ok (if x then default_transpiler_config else c)))
        by true v e = picked true
        by false none e = picked true
        by false (some missing) e = picked false
        by false (some null) e = picked true
        by false (some not_a_map) e = at_config e
        by false (some (entries n)) e = picked (ltb n 1)

    pub run_job-Answers : Answers (run_job s body job)
    unfolding run_job
    run_job-Answers = chosen-Answers job.transpiler
