-- ===== src/Core/Fault.antt =====
-- The errors that the engine makes itself. A formatted message is kept as the values that it is
-- formatted from; an error of a service or a library is `external`.
use oqtopus_engine.Prelude.{ℕ, String}
use oqtopus_engine.Prelude.Int.{ℤ}

pub data Fault : Type 0 where
  external : String → Fault
  unknown_status : String → Fault
  invalid_key : Fault
  job_id_is_empty : Fault
  shots_not_positive : ℤ → Fault
  shots_over_limit : ℤ → ℤ → Fault
  transpiler_lib_not_acceptable : String → Fault
  job_type_not_registered : String → Fault
  already_registered : String → Fault
  not_found : String → Fault
  length_mismatch : ℕ → ℕ → Fault
  virtual_out_of_range : ℕ → ℕ → Fault
  physical_out_of_range : ℕ → ℕ → Fault
  inconsistent_qubits : Fault
  inconsistent_qubit_property : Fault
  post_process_failed : Fault
  circuit_combine_failed : Fault
  gateway_not_connected : Fault
  transpile_failed : Fault
  counts_is_empty : Fault
  different_key_lengths : Fault
  statement_not_supported : String → Fault
  too_many_qubits : ℤ → Fault
  failed_to_generate_ir : Fault
  no_input_qasm : Fault
  device_not_available : Fault
  queue_over_threshold : ℕ → Fault
  no_entry : Fault
  sse_failed : String → Fault
  body_is_empty : Fault
  device_info_is_nil : Fault
  unknown_device_name : String → Fault
  params_not_a_table : Fault
  runner_not_found : String → Fault
  tranqu_setting_not_found : Fault
  gateway_setting_not_found : Fault
  invalid_host : String → Fault
  invalid_port : String → Fault
  port_not_an_int : String → Fault
  port_out_of_range : ℕ → Fault
