-- ===== src/Lifecycle.antt =====
-- What may become of the runs in the storage: `update_run_state` of memory/run.py against the
-- diagram of run_state.py, and every method of the modelled services by way of it.
pub mod Moves
pub mod States
pub mod Bids
