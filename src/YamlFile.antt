-- ===== src/YamlFile.antt =====
-- testloader/yaml_file/: from the files of a directory to tests.
pub mod Cases
pub mod Walk
