-- ===== src/Agent/Tests.antt =====
-- Runs of the agent's parts on concrete inputs.
mod Buffers
mod Stopping
mod Credentials
mod Sessions
mod Fronts
mod Guarding
mod Asking
mod Provisioning
mod Rotated
