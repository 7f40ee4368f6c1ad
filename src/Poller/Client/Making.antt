-- ===== src/Poller/Client/Making.antt =====
-- `make_job` never panics, and what it makes.
use oqtopus_engine.Prelude.{
  ℕ, String, Bool, true, false, List, [], ◌∷◌, Option, none, some, Outcome, ok, err, panic, ◌>>=◌,
  ◌≡◌, ◌≢◌, ◌⊎◌, inl, inr, refl, All, ap, str_eq, if◌then◌else◌,
}
use oqtopus_engine.Prelude.Int.{ℤ, pos, leb_ℤ, ltb_ℤ}
use text.Mathlib.TextEquality.{eq_iff}
use oqtopus_engine.Core.Fault.{
  Fault, job_id_is_empty, shots_not_positive, shots_over_limit, transpiler_lib_not_acceptable,
}
use oqtopus_engine.Core.Status.{failed}
use oqtopus_engine.Core.Data.{JobData, TranspilerConfig, set_failure}
use oqtopus_engine.Core.Manager.{
  JobClass, unknown_job, normal_job, sampling_job, estimation_job, manual_job, sse_job, JobManager,
  Environment, job_type, find_class, check_shots, check_transpiler, validate_job_param, JobParam,
  normal_type, with_default_type, new_job_from_job_data, new_job_from_job_data_with_validation,
}
use oqtopus_engine.Poller.Client.{make_job}

-- An outcome that is not a panic.
abbrev Ends : {A : Type 0} → Outcome Fault A → Type 0
Ends (ok a) = Unit {0}
Ends (err e) = Unit {0}
Ends panic = ⊥

-- No class of unknown jobs is registered: to register one panics.
abbrev pub IsRegistered : JobClass → Type 0
IsRegistered c = c ≢ unknown_job

>>=-Ends :
    {A B : Type 0} (o : Outcome Fault A) (next : A → Outcome Fault B)
    → Ends o
    → ((a : A) → Ends (next a))
    → Ends (o >>= next)
>>=-Ends (ok a) next h k = k a
>>=-Ends (err e) next h k = tt
>>=-Ends panic next h k = h

check_shots-Ends : (env : Environment) (n : ℤ) → Ends (check_shots env n)
unfolding check_shots
check_shots-Ends env n = by (leb_ℤ n (pos 0)) (ltb_ℤ env.max_shots n)
  where
    by :
        (a b : Bool)
        → Ends (
            if a
            then err (shots_not_positive n)
            else if b
            then err (shots_over_limit n env.max_shots)
            else ok tt)
    by true b = tt
    by false true = tt
    by false false = tt

check_transpiler-Ends :
    (env : Environment) (c : TranspilerConfig) → Ends (check_transpiler env (some c))
unfolding check_transpiler
check_transpiler-Ends env c = by c.transpiler_lib
  where
    named :
        (b : Bool) (l : String) → Ends (if b then ok tt else err (transpiler_lib_not_acceptable l))
    named true l = tt
    named false l = tt

    by :
        (o : Option String)
        → Ends (elim o as (λ _. Outcome Fault (Unit {0})) [
          | none ↦ ok tt
          | some lib ↦
              if env.is_acceptable_transpiler_lib lib
              then ok tt
              else err (transpiler_lib_not_acceptable lib)
        ])
    by none = tt
    by (some l) = named (env.is_acceptable_transpiler_lib l) l

validate_job_param-Ends :
    (env : Environment) (p : JobParam) (c : TranspilerConfig)
    → p.transpiler ≡ some c
    → Ends (validate_job_param env p)
unfolding validate_job_param
validate_job_param-Ends env p c e = rw e (by (str_eq p.job_id "") (str_eq p.job_type normal_type))
  where
    shots : (b : Bool) → Ends (if b then check_shots env p.shots else ok tt)
    shots true = check_shots-Ends env p.shots
    shots false = tt

    by :
        (a b : Bool)
        → Ends (
            if a
            then err job_id_is_empty
            else (if b then check_shots env p.shots else ok tt) >>= λ _.
                check_transpiler env (some c))
    by true b = tt
    by false b =
        >>=-Ends _ (λ _. check_transpiler env (some c)) (shots b) (λ _. check_transpiler-Ends env c)

-- A registered class has a name.
job_type-Named : (c : JobClass) → IsRegistered c → (n : String) × (job_type c ≡ ok n)
unfolding job_type
job_type-Named normal_job h = ("normal", refl)
job_type-Named unknown_job h = absurd (h refl)
job_type-Named sampling_job h = ("sampling", refl)
job_type-Named estimation_job h = ("estimation_job", refl)
job_type-Named manual_job h = ("multi_manual", refl)
job_type-Named sse_job h = ("sse", refl)

-- What a search finds has the type that was searched.
abbrev Finds : String → Outcome Fault JobClass → Type 0
Finds ty (ok c) = job_type c ≡ ok ty
Finds ty (err e) = Unit {0}
Finds ty panic = ⊥

find_class-Finds :
    (cs : List JobClass) (ty : String) → All IsRegistered cs → Finds ty (find_class cs ty)
unfolding find_class
find_class-Finds [] ty h = tt
find_class-Finds (c ∷ cs) ty (p, h) =
    let (n, e) = job_type-Named c p in rw e (by n (str_eq n ty) e refl (find_class-Finds cs ty h))
  where
    by :
        (n : String) (b : Bool)
        → job_type c ≡ ok n
        → str_eq n ty ≡ b
        → Finds ty (find_class cs ty)
        → Finds ty (if b then ok c else find_class cs ty)
    by n true e q k = rw (e, (eq_iff n ty).0 q) refl
    by n false e q k = k

with_default_type-same : (jd : JobData) → str_eq jd.job_type "" ≡ false → with_default_type jd ≡ jd
unfolding with_default_type
with_default_type-same jd h = rw h refl

-- A job of the engine for job data: of the class that the data's type names, or unknown and FAILED.
abbrev pub IsMade : JobData → JobClass × JobData → Type 0
IsMade jd (k, d) =
    (d.id ≡ jd.id)
    × (((job_type k ≡ ok jd.job_type) × (d ≡ jd)) ⊎ ((k ≡ unknown_job) × (d.status ≡ failed)))

module _ (env : Environment) (m : JobManager)
    (registered : All IsRegistered m.acceptable_jobs) where
  abbrev Made : JobData → Outcome Fault (JobClass × JobData) → Type 0
  Made jd (ok (k, d)) = (job_type k ≡ ok jd.job_type) × (d ≡ jd)
  Made jd (err e) = Unit {0}
  Made jd panic = ⊥

  new_job-Made :
      (jd : JobData) → str_eq jd.job_type "" ≡ false → Made jd (new_job_from_job_data m jd)
  unfolding new_job_from_job_data
  new_job-Made jd h = rw (with_default_type-same jd h) (
      by (find_class m.acceptable_jobs jd.job_type)
        (find_class-Finds m.acceptable_jobs jd.job_type registered))
    where
      by : (o : Outcome Fault JobClass) → Finds jd.job_type o → Made jd (o >>= λ c. ok (c, jd))
      by (ok c) f = (f, refl)
      by (err e) f = tt
      by panic f = f

  validated-Made :
      (jd : JobData) (c : TranspilerConfig)
      → jd.transpiler ≡ some c
      → str_eq jd.job_type "" ≡ false
      → Made jd (new_job_from_job_data_with_validation env m jd)
  unfolding new_job_from_job_data_with_validation
  validated-Made jd c t h =
      rw (with_default_type-same jd h)
        (by (validate_job_param env param) (validate_job_param-Ends env param c t))
    where
      param : JobParam
      param = record {
        job_id = jd.id;
        qasm = jd.qasm;
        shots = jd.shots;
        transpiler = jd.transpiler;
        job_type = jd.job_type;
      }

      by : (o : Outcome Fault (Unit {0})) → Ends o → Made jd (o >>= λ _. new_job_from_job_data m jd)
      by (ok u) f = new_job-Made jd h
      by (err e) f = tt
      by panic f = f

  pub make_job-IsMade :
      (now : ℕ) (jd : JobData) (c : TranspilerConfig)
      → jd.transpiler ≡ some c
      → str_eq jd.job_type "" ≡ false
      → (j : JobClass × JobData) × (make_job env m now jd ≡ ok j) × IsMade jd j
  unfolding make_job set_failure
  make_job-IsMade now jd c t h =
      by (new_job_from_job_data_with_validation env m jd) (validated-Made jd c t h)
    where
      by :
          (o : Outcome Fault (JobClass × JobData))
          → Made jd o
          → (j : JobClass × JobData) × ((elim o as (λ _. Outcome Fault (JobClass × JobData)) [
            | ok i ↦ ok i
            | err e ↦ ok (unknown_job, set_failure now e (with_default_type jd))
            | panic ↦ panic
          ])
              ≡ ok j)
            × IsMade jd j
      by (ok (k, d)) (f, e) = ((k, d), refl, (ap (λ (x : JobData). x.id) e, inl (f, e)))
      by (err x) f = (
        (unknown_job, set_failure now x (with_default_type jd)),
        refl,
        (ap (λ (y : JobData). y.id) (with_default_type-same jd h), inr (refl, refl)),
      )
      by panic f = absurd f
