-- ===== src/ResultDivider/Keeps.antt =====
-- What `DivideResult` leaves alone.
use oqtopus_engine.Prelude.{
  String, Option, List, [], Outcome, ok, err, panic, or_panic, ◌>>=◌, ◌≡◌, refl, ◌==◌, length, Bool,
  true, false,
}
use oqtopus_engine.Prelude.Int.{ℤ}
use oqtopus_engine.Prelude.Dict.{Bytes, Dict}
use oqtopus_engine.Prelude.{ℕ, if◌then◌else◌}
use oqtopus_engine.Core.Fault.{Fault, inconsistent_qubit_property}
use oqtopus_engine.Core.Mapping.{VirtualPhysicalMappingMap, to_map}
use oqtopus_engine.Core.Data.{JobData, Counts, DividedResult}
use oqtopus_engine.Core.Job.{Call, left_of}
use oqtopus_engine.ResultDivider.{
  divide_result, divide_mapped, swap_virtual_physical, divide_counts, set_counts, set_divided,
}

-- Everything but the result.
abbrev pub KeepsAllButResult : JobData → JobData → Type 0
KeepsAllButResult jd d = d ≡ record jd { result = d.result }

divide_mapped-Keeps :
    (m : VirtualPhysicalMappingMap) (jd : JobData) (lengths : List ℤ)
    → KeepsAllButResult jd (left_of (divide_mapped m jd lengths))
unfolding divide_mapped set_counts set_divided
divide_mapped-Keeps m jd lengths = by (swap_virtual_physical jd.result.counts m)
  where
    divided :
        (c : Counts) (o : Outcome Fault DividedResult)
        → KeepsAllButResult jd (
            left_of (elim o [
              | ok r ↦ Call.done (set_divided r (set_counts c jd))
              | err e ↦ Call.failed e (set_counts c jd)
              | panic ↦ Call.panicked (set_counts c jd)
            ]))
    divided c (ok r) = refl
    divided c (err e) = refl
    divided c panic = refl

    by :
        (o : Outcome Fault Counts)
        → KeepsAllButResult jd (
            left_of (elim o [
              | ok counts ↦ elim (divide_counts lengths counts []) [
                | ok r ↦ Call.done (set_divided r (set_counts counts jd))
                | err e ↦ Call.failed e (set_counts counts jd)
                | panic ↦ Call.panicked (set_counts counts jd)
              ]
              | err e ↦ Call.failed e jd
              | panic ↦ Call.panicked jd
            ]))
    by (ok counts) = divided counts (divide_counts lengths counts [])
    by (err e) = refl
    by panic = refl

pub divide_result-Keeps :
    (decode : Option String → Dict Bytes ℕ) (jd : JobData) (lengths : List ℤ)
    → KeepsAllButResult jd (left_of (divide_result decode jd lengths))
unfolding divide_result
divide_result-Keeps decode jd lengths =
    by (length jd.result.counts == 0)
      (or_panic jd.result.transpiler_info >>= λ ti. to_map (decode ti.virtual_physical_mapping_raw))
  where
    mapped :
        (o : Outcome Fault VirtualPhysicalMappingMap)
        → KeepsAllButResult jd (
            left_of (elim o [
              | ok m ↦ divide_mapped m jd lengths
              | err e ↦ Call.failed e jd
              | panic ↦ Call.panicked jd
            ]))
    mapped (ok m) = divide_mapped-Keeps m jd lengths
    mapped (err e) = refl
    mapped panic = refl

    by :
        (b : Bool) (o : Outcome Fault VirtualPhysicalMappingMap)
        → KeepsAllButResult jd (
            left_of (
              if b then Call.failed inconsistent_qubit_property jd else elim o [
                | ok m ↦ divide_mapped m jd lengths
                | err e ↦ Call.failed e jd
                | panic ↦ Call.panicked jd
              ]))
    by true o = refl
    by false o = mapped o
