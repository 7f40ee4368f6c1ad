-- ===== src/Core/Manager/Laws.antt =====
-- Which job parameters `validateJobParam` accepts.
use oqtopus_engine.Prelude.{String, true, Option, none, some, ok, ◌≡◌, ◌≢◌, ◌↔◌, arith, eq_iff}
use oqtopus_engine.Prelude.Int.{pos, ◌≤ℤ◌}
use oqtopus_engine.Core.Data.{TranspilerConfig}
use oqtopus_engine.Core.Manager.{Environment, JobParam, normal_type, validate_job_param}

abbrev pub AcceptableLib : Environment → Option String → Type 0
AcceptableLib env none = Unit {0}
AcceptableLib env (some lib) = env.is_acceptable_transpiler_lib lib ≡ true

-- What the validation lets through: an ID, shots in range for a normal job, a known transpiler.
pub record IsAcceptable (env : Environment) (p : JobParam) (c : TranspilerConfig) : Type 0 where
  pub has_id : p.job_id ≢ ""
  pub shots_positive : p.job_type ≡ normal_type → pos 1 ≤ℤ p.shots
  pub shots_in_limit : p.job_type ≡ normal_type → p.shots ≤ℤ env.max_shots
  pub lib_known : AcceptableLib env c.transpiler_lib

module _ (env : Environment) (p : JobParam) (c : TranspilerConfig)
    (given : p.transpiler ≡ some c) where
  accepted : validate_job_param env p ≡ ok tt → IsAcceptable env p c
  unfolding validate_job_param
  accepted h = record {
    has_id = ground (arith, eq_iff p.job_id "");
    shots_positive = ground (arith, eq_iff p.job_id "", eq_iff p.job_type normal_type);
    shots_in_limit = ground (arith, eq_iff p.job_id "", eq_iff p.job_type normal_type);
    lib_known = ground (arith, eq_iff p.job_id "", eq_iff p.job_type normal_type);
  }

  acceptable : IsAcceptable env p c → validate_job_param env p ≡ ok tt
  unfolding validate_job_param
  acceptable a = ground (arith, eq_iff p.job_id "", eq_iff p.job_type normal_type)

  -- With a transpiler configuration given, the validation passes exactly the acceptable parameters.
  pub validate_job_param-eq-ok : (validate_job_param env p ≡ ok tt) ↔ IsAcceptable env p c
  validate_job_param-eq-ok = (accepted, acceptable)
