-- ===== src/Qpu.antt =====
-- The package qpu (coreapp/qpu): what it reads from a circuit, the checks of a circuit, the agent
-- that talks to the gateway of the device, and the polling of the device.
pub mod Circuit
pub mod Filter
pub mod Validate
pub mod Gateway
