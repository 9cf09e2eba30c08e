-- ===== src/Tests.antt =====
-- Runs of the modelled code on concrete inputs, and each theorem at an input that meets its
-- hypotheses.
mod Samples
mod Reviews
mod Consoles
mod Clocks
mod Workflows
mod Configs
mod Identities
mod Origins
mod Reviewing
mod Serving
mod Firestores
mod Commands
mod Timers
mod Stored
