-- ===== src/Command.antt =====
-- The two ways to start a run: main.go (Command/Main) and runner/runner_testing.go (Command/Testing). Both put a
-- runner together from the parts of the program, and cmd_runner/ (Command/Script) starts the scripts.
pub mod Script
pub mod Parts
pub mod Main
pub mod Testing
pub mod Asked
pub mod Exits
