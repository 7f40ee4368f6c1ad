-- ===== src/Core/Manager/Creation.antt =====
-- What a manager holds after registration, and which class a new job gets.
use oqtopus_engine.Prelude.{
  if◌then◌else◌, String, true, false, ◌||◌, List, [], ◌∷◌, ◌++◌, ok, >>=-eq-ok, ◌≡◌, ◌↔◌, inl, inr,
  refl, sym, ap, ◌∙◌, arith, eq_iff, str_eq, Bool-cases,
}
use oqtopus_engine.Core.Data.{JobData}
use oqtopus_engine.Core.Manager.{
  JobClass, class_beq, has_class, job_type, JobManager, register_one, register_all, new_job_manager,
  find_class, with_default_type, new_job_from_job_data, normal_job, unknown_job, sampling_job,
  estimation_job, manual_job, sse_job,
}

class_beq→eq : (a b : JobClass) → class_beq a b ≡ true → a ≡ b
class_beq→eq a b h = ground arith

-- The class whose jobs have this type; anything for other texts.
class_of_type : String → JobClass
class_of_type ty =
    if str_eq ty "normal"
    then normal_job
    else if str_eq ty "sampling"
    then sampling_job
    else if str_eq ty "estimation_job"
    then estimation_job
    else if str_eq ty "multi_manual"
    then manual_job
    else sse_job

class_of-job_type : (c : JobClass) (ty : String) → job_type c ≡ ok ty → class_of_type ty ≡ c
unfolding job_type class_of_type
class_of-job_type normal_job ty h = let e : ty ≡ "normal" = cc in rw e
class_of-job_type unknown_job ty h = cc
class_of-job_type sampling_job ty h = let e : ty ≡ "sampling" = cc in rw e
class_of-job_type estimation_job ty h = let e : ty ≡ "estimation_job" = cc in rw e
class_of-job_type manual_job ty h = let e : ty ≡ "multi_manual" = cc in rw e
class_of-job_type sse_job ty h = let e : ty ≡ "sse" = cc in rw e

-- Two classes of one type are one class.
pub job_type-injective :
    (a b : JobClass) (ty : String) → job_type a ≡ ok ty → job_type b ≡ ok ty → a ≡ b
job_type-injective a b ty p q = sym (class_of-job_type a ty p) ∙ class_of-job_type b ty q

-- Every class of the list has a type, and none stands in it twice.
abbrev pub IsRegistry : List JobClass → Type 0
IsRegistry [] = Unit {0}
IsRegistry (c ∷ cs) =
    (has_class cs c ≡ false) × ((ty : String) × (job_type c ≡ ok ty)) × IsRegistry cs

has_class-append :
    (c d : JobClass) (cs : List JobClass)
    → has_class (cs ++ d ∷ []) c ≡ (has_class cs c || class_beq d c)
has_class-append c d [] = ground arith
has_class-append c d (x ∷ cs) = ground (arith, has_class-append c d cs)

class_beq_comm : (a b : JobClass) → class_beq a b ≡ class_beq b a
class_beq_comm a b = ground arith

append-IsRegistry :
    (c : JobClass) (cs : List JobClass) (ty : String)
    → job_type c ≡ ok ty
    → has_class cs c ≡ false
    → IsRegistry cs
    → IsRegistry (cs ++ c ∷ [])
append-IsRegistry c [] ty p new h = (refl, (ty, p), tt)
append-IsRegistry c (x ∷ cs) ty p new h = (
  ground (arith, has_class-append x c cs, class_beq_comm x c, h.0),
  h.1,
  append-IsRegistry c cs ty p (ground arith) h.2,
)

register_one-IsRegistry :
    (c : JobClass) (m n : JobManager)
    → IsRegistry m.acceptable_jobs
    → register_one c m ≡ ok n
    → IsRegistry n.acceptable_jobs
unfolding register_one
register_one-IsRegistry c m n h e =
    let (ty, p, q) = >>=-eq-ok (job_type c) _ e in
    elim (Bool-cases (has_class m.acceptable_jobs c)) [
      | inl old ↦ ground arith
      | inr new ↦
          let s : n.acceptable_jobs ≡ m.acceptable_jobs ++ c ∷ [] = ground arith in
          rw s (append-IsRegistry c m.acceptable_jobs ty p new h)
    ]

register_all-IsRegistry :
    (cs : List JobClass) (m n : JobManager)
    → IsRegistry m.acceptable_jobs
    → register_all cs m ≡ ok n
    → IsRegistry n.acceptable_jobs
unfolding register_all
register_all-IsRegistry [] m n h e = let s : m ≡ n = cc in rw (← s) h
register_all-IsRegistry (c ∷ cs) m n h e =
    let (k, p, q) = >>=-eq-ok (register_one c m) (register_all cs) e in
    register_all-IsRegistry cs k n (register_one-IsRegistry c m k h p) q

-- A manager made by `NewJobManager` holds each class once, and only classes that have a type.
pub new_job_manager-IsRegistry :
    (cs : List JobClass) (m : JobManager) → new_job_manager cs ≡ ok m → IsRegistry m.acceptable_jobs
unfolding new_job_manager
new_job_manager-IsRegistry cs m e =
    register_all-IsRegistry cs (record { acceptable_jobs = [] }) m tt e

pub find_class-of_type :
    (cs : List JobClass) (ty : String) (c : JobClass) → find_class cs ty ≡ ok c → job_type c ≡ ok ty
unfolding find_class
find_class-of_type [] ty c h = cc
find_class-of_type (x ∷ cs) ty c h =
    let (name, p, q) = >>=-eq-ok (job_type x) _ h in
    ground (arith, eq_iff name ty, find_class-of_type cs ty c)

find_class-has_class :
    (cs : List JobClass) (ty : String) (c : JobClass)
    → IsRegistry cs
    → has_class cs c ≡ true
    → job_type c ≡ ok ty
    → find_class cs ty ≡ ok c
unfolding find_class
find_class-has_class [] ty c r h p = cc
find_class-has_class (x ∷ cs) ty c r h p =
    let (name, q) = r.1 in
    elim (Bool-cases (str_eq name ty)) [
      | inl same ↦
          let e : name ≡ ty = (eq_iff name ty).0 same in
          let k : job_type x ≡ ok ty = rw (← e) q in
          rw (q, same) (ap ok (job_type-injective x c ty k p))
      | inr other ↦
          rw (q, other)
            (find_class-has_class cs ty c r.2 (ground (arith, class_beq→eq x c, eq_iff name ty)) p)
    ]

class_beq_refl : (c : JobClass) → class_beq c c ≡ true
class_beq_refl c = ground arith

find_class_found :
    (cs : List JobClass) (ty : String) (c : JobClass)
    → find_class cs ty ≡ ok c
    → has_class cs c ≡ true
unfolding find_class
find_class_found [] ty c h = cc
find_class_found (x ∷ cs) ty c h =
    let (name, p, q) = >>=-eq-ok (job_type x) _ h in
    ground (arith, class_beq_refl x, find_class_found cs ty c)

-- A manager that holds each class once makes a job of the class that is registered for the job's
-- type, with the default type filled in, and makes no other job.
pub new_job_from_job_data-eq-ok :
    (m : JobManager) (jd d : JobData) (c : JobClass)
    → IsRegistry m.acceptable_jobs
    → (new_job_from_job_data m jd ≡ ok (c, d)) ↔ (
        (has_class m.acceptable_jobs c ≡ true)
        × (job_type c ≡ ok d.job_type)
        × (d ≡ with_default_type jd))
unfolding new_job_from_job_data
new_job_from_job_data-eq-ok m jd d c r = (made, makes)
  where
    made :
        new_job_from_job_data m jd ≡ ok (c, d)
        → (has_class m.acceptable_jobs c ≡ true)
          × (job_type c ≡ ok d.job_type)
          × (d ≡ with_default_type jd)
    made e =
        let ty = (with_default_type jd).job_type in
        let (k, p, q) = >>=-eq-ok (find_class m.acceptable_jobs ty) _ e in
        let same : d ≡ with_default_type jd = cc in
        let f : find_class m.acceptable_jobs ty ≡ ok c = cc in
        (
          find_class_found m.acceptable_jobs ty c f,
          rw same (find_class-of_type m.acceptable_jobs ty c f),
          same,
        )

    makes :
        (has_class m.acceptable_jobs c ≡ true)
          × (job_type c ≡ ok d.job_type)
          × (d ≡ with_default_type jd)
        → new_job_from_job_data m jd ≡ ok (c, d)
    makes (h, p, same) =
        let ty = (with_default_type jd).job_type in
        let p' : job_type c ≡ ok ty = rw (← same) p in
        rw (find_class-has_class m.acceptable_jobs ty c r h p') (ground arith)
