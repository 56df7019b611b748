-- ===== src/Examples.antt =====
-- Runs of the modelled code on concrete inputs.
mod Documents
mod Loading
mod Running
mod Files
mod Mocked
mod Commands
