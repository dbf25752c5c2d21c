-- ===== src/Samples.antt =====
-- Runs of the model on small inputs: the environment, a state of the scheduler, and the theorems
-- applied to them.
pub mod Kernel
pub mod Inputs
pub mod Queues
pub mod Core
pub mod Programs
pub mod Calls
pub mod Loads
pub mod Group
pub mod Realtime
pub mod Bandwidth
