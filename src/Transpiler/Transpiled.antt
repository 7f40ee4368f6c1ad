-- ===== src/Transpiler/Transpiled.antt =====
-- What a transpilation writes to a job.
use oqtopus_engine.Prelude.{ℕ, String, some, ok, ◌>>=◌, ◌≡◌, ◌↔◌, refl, All}
use oqtopus_engine.Prelude.Dict.{Bytes, Dict, lookup, nat_eq}
use oqtopus_engine.Core.Mapping.{to_map}
use oqtopus_engine.Core.Data.{JobData, TranspilerInfo}
use oqtopus_engine.Core.Job.{done}
use oqtopus_engine.Transpiler.{
  Client, TranspileReply, transpile_request, reply_status, transpiled, to_virtual_physical,
  to_physical_virtual, write_info, write_physical_virtual, write_mappings, take_reply, transpile,
}
use oqtopus_engine.Transpiler.Mappings.{parse_all, as_ints, swapped, Unique, Fits, mappings_inverse}

-- The job has the program of the reply, the raw mapping, and a physical to virtual mapping that is the
-- inverse of what `ToMap` makes of the raw one's entries.
abbrev pub IsTranspiled : TranspileReply → String → Dict Bytes ℕ → JobData → Type 0
IsTranspiled r raw m d =
    (d.transpiled_qasm ≡ r.transpiled_program)
    × ((ti : TranspilerInfo) × (vpm : Dict ℕ ℕ) × (d.result.transpiler_info ≡ some ti)
        × (ti.virtual_physical_mapping_raw ≡ some raw)
        × (ti.stats_raw ≡ some r.stats)
        × (to_map m ≡ ok vpm)
        × ((v p : ℕ) → (lookup v vpm ≡ some p) ↔ (lookup p ti.physical_virtual_mapping ≡ some v)))

-- If the transpiler answers with status 0 and a mapping that names each virtual and each physical qubit once,
-- and the job has the record for the transpiler's information, the call returns no error, and the job has the
-- transpiled program, the statistics, the mapping, and the inverse of the mapping.
pub transpile-IsTranspiled :
    (c : Client) (jd : JobData) (r : TranspileReply) (ti : TranspilerInfo) (raw : String)
    (m : Dict Bytes ℕ) (l : Dict ℕ ℕ)
    → (transpile_request c jd >>= c.transpile) ≡ ok r
    → reply_status r.status ≡ transpiled
    → c.decode_qubits r.virtual_physical_mapping ≡ ok (as_ints m)
    → c.encode_qubits (as_ints m) ≡ ok raw
    → jd.result.transpiler_info ≡ some ti
    → parse_all m ≡ some l
    → All Fits m
    → Unique l
    → Unique (swapped l)
    → (d : JobData) × (transpile c jd ≡ done d) × IsTranspiled r raw m d
unfolding transpile take_reply write_mappings write_info write_physical_virtual to_virtual_physical
    to_physical_virtual
transpile-IsTranspiled c jd r ti raw m l a s d e i h f u us =
    let (vpm, pvm, v, p, inverse) = mappings_inverse m l h f u us in
    let first : to_virtual_physical c r.virtual_physical_mapping ≡ ok raw =
      rw (d, to_virtual_physical) e in
    let second : to_physical_virtual c r.virtual_physical_mapping ≡ ok pvm =
      rw (d, to_physical_virtual) p in
    let ti2 : TranspilerInfo = record ti {
      virtual_physical_mapping_raw = some raw;
      physical_virtual_mapping = pvm;
      stats_raw = some r.stats;
    } in
    let written : JobData = record jd {
      transpiled_qasm = r.transpiled_program;
      result = record (jd.result) { transpiler_info = some ti2 };
    } in
    (
      written,
      rw (a, transpile)
          (rw (s, transpile)
            (rw (first, take_reply) (rw (i, write_mappings) (rw (second, write_mappings) refl)))),
      (refl, (ti2, vpm, refl, refl, refl, v, inverse)),
    )
