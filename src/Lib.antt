-- ===== src/Lib.antt =====
-- gonkey: a model of the test runner, with the theorems that make it correct.
--
-- The program reads test cases from YAML files, and for each of them loads fixtures into a database, sends
-- one HTTP request, compares the response with the expected one and takes variables from it for the tests
-- after it. The files are these.
--
-- - Base: shared types, tests and lemmas. A string of Go is a list of bytes (Base/Text), a map an association
--   list, in the order in which it is visited (Base/Dict), and a function that can return an error or panic
--   gives an Outcome (Base/Outcome). Base/Search says what the searches in a text look for. Sort is sort.Slice
--   and sort.Strings as the stable insertion sort of slices of at most twelve elements (on longer ones sort.Slice
--   promises no order of equal elements), Sort/Stable describes such a sort; Pattern has the
--   expressions of the form ^opening(.+)\)$. Value and Yaml are what the JSON and YAML packages decode.
-- - Compare (compare/compare.go): `compare` is Compare, and Compare/Branch has compareBranch with the
--   functions that it calls. It runs on fuel, for which the depth of the expected document is taken; each
--   call lowers the depth. Compare/Agrees is the relation on documents that it is held against,
--   and Compare/Reading says by which texts arrays are sorted.
-- - Fixtures (fixtures/loader.go): Fixtures/Files reads the files into a LoadContext, Fixtures/Query builds
--   the INSERT statements, Fixtures/Values says what stands in them, Fixtures/Tables sends the statements, as Events in a log. The world around the
--   loader is the record World. The files run on fuel: one unit more than there are files is enough.
-- - Models (testloader/yaml_file/test.go and test_definition.go, models/): the structs of a test and the
--   methods of TestInterface.
-- - Variables (variables/): the store, the scanners that stand for its two expressions (Variables/Pattern),
--   the substitution, and the variables of a response (Variables/Response).
-- - YamlFile (testloader/yaml_file/parser.go and yaml_file.go): the walk over a directory, and the tests of a
--   definition.
-- - Checker (checker/): the checkers of bodies, headers, database rows and JSON schemas.
-- - Mocks (mocks/): the services that a test replaces. Mocks/Constraint has the constraints of
--   request_constraint.go, Mocks/Definition the definitions with their strategies (definition.go,
--   reply_strategy.go), which count the requests and hand them down, Mocks/Service the services
--   (service_mock.go, mocks.go), and Mocks/Load the loader (loader.go), which follows the structure of the
--   document and needs no fuel. Mocks/Load/Printed has typed descriptions of definitions, with what they mean
--   and how they are written. Mocks/Isolation has the steps that the mocks make while tests run, and
--   Mocks/Tested puts their operations together as a test of the runner uses them.
-- - Output (output/): the report for Allure with its suites, cases, attachments and files (Output/Allure), and
--   what the console and the package testing are shown (Output/Console).
-- - Runner (runner/): the run. What it does outside the program is a list of Calls; the record Env says how
--   the world answers each of them after those before it. A test that fails is a result with errors; an
--   error of the run itself ends it.
-- - Command: main.go, runner/runner_testing.go and cmd_runner/, which put a Runner together from the
--   checkers, the outputs and the script (Command/Parts). Command/Asked says what the flags ask for, and
--   Command/Exits how the command exits.
-- - Examples: the theorems at concrete inputs.
--
-- Go's runtime and packages are parameters: float64 and the package regexp (Runtime), the file system, the
-- database and the decoders (World), net/http (Http, Env), text/template, gjson, the packages pretty, validate
-- and uuid, and the system calls of a script (System). Error texts stand as constructors. The order in which Go
-- visits a map is that of the list that stands for it. Not modelled: the example programs, the texts of the
-- templates, debug output, and the concurrency of the mocks, whose operations are taken to happen one after the
-- other, as the lock of a service has it for its requests.
pub mod Base
pub mod Sort
pub mod Pattern
pub mod Value
pub mod Yaml
pub mod Compare
pub mod Models
pub mod Variables
pub mod Fixtures
pub mod YamlFile
pub mod Checker
pub mod Mocks
pub mod Output
pub mod Runner
pub mod Command
pub mod Examples
