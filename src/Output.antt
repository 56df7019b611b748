-- ===== src/Output.antt =====
-- output/: the reports on the tests of a run.
pub mod Allure
pub mod Console
