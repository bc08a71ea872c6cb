-- ===== src/Lib.antt =====
-- PBench, a benchmark driver for Presto clusters: the model of its core and what is shown of it.
--
-- A run (cmd/run/main.go) reads stage files, merges those named on the command line into a main stage
-- and executes it with the stages behind it (stage/). A stage splits its query files into statements
-- (prestoapi/query_splitter.go), submits each as often as its run counts say, runs the shell scripts
-- around them, and hands its session and options on to the next stages. The other commands load query
-- json files into databases through an object-relational mapping (utils/orm.go, utils/row.go) and
-- take the addresses of several clusters as parallel flags (utils/presto_flags.go).
--
-- Files, and the code that they model:
--   Prelude, Prelude/*: tests and arithmetic on the native numbers, lists, Go strings as lists of
--     bytes, Go maps with string keys as association lists, signed integers, file paths.
--   Sql/Split: `ScanSqlStmt` of prestoapi/query_splitter.go, its state `pos`, `inQuote`,
--     `inComment`, `inMultilineComment` as the two halves of the data and a mode. Sql/Split/Lexer is a
--     reference lexer that reads one byte at a time, Sql/Split/Contract what a scanner asks of it.
--   Sql/Scanner: `SplitQueries` with the loop of bufio.Scanner; Sql/Scanner/Measure, Statements and
--     Blank its properties.
--   Stage/Config: the structs of stage/stage.go and stage/query.go. A `*T` is an Option, a
--     `map[string]any` maps a text to nothing (null) or to the text of its value.
--   Stage/Merge: `MergeWith`. Stage/Inherit: `setDefaults` and `propagateStates`, where `none`
--     stands for a nil dereference (stage/stage_utils.go).
--   Stage/Queries: `runQueries`, `runQuery`, `runShellScripts` (stage/stage.go) as functions on a
--     state of a world, the exit code and the results sent. The shell, the client, the output file
--     and the context are the parameters of the record Outside, whose calls may change the world.
--   Stage/Sequence: `runSequentially`, `runQueryFile` and `newStreamInstance` (stage/stage.go), with the
--     file system and package regexp as the record Sources.
--   Stage/Client: `prepareClient` (stage/stage_utils.go), with the Presto client as the record ClientApi
--     and a store of clients, since stages share them.
--   Stage/Body: the rest of `run`, from `setDefaults` to the scripts behind the queries. A stage whose
--     queries go to parallel streams (`runAsMultipleStreams`) stops there, in an outcome of its own.
--   Stage/Files: `expandQueryFileDirs` and `querySourceString` (stage/stage_utils.go).
--   Stage/Random: `runRandomly`, with the random source and the clock as the record Chance.
--   Stage/Results: the loop of `Run` that collects and records the results, and the counters of
--     stage/mysql_run_recorder.go, whose statements to the database are not modelled.
--   Stage/Parse: `ParseStage`, `ParseStageFromFile` and `ReadStageFromFile` (stage/map.go), with the
--     decoding of a file as the record Library; the objects that the map's pointers share are kept under
--     the ids of the stages.
--   Stage/Links: `checkStageLinks` of stage/map.go on stages named by their ids.
--   Stage/Coordination: `run` of stage/stage.go as goroutines that share `started`, `wgPrerequisites`
--     and `wgExitMainStage`, with a step for each action, so that every interleaving is a sequence of
--     steps. A goroutine that writes a file in the background is a goroutine too.
--   Utils/Rows, Utils/RowsMap, Utils/Flags: utils/row.go, `MergeRowsMap` of utils/orm.go, and
--     `Pivot` of utils/presto_flags.go.
--   Ddl: the schemas, tables and columns of cmd/genddl/main.go, of definitions that were read.
--   Plan/Tree: `Traverse` of prestoapi/plan_node/plan_node.go with its contexts as depths, and
--     Plan/Tree/Order, Ends its properties. Plan/Values: the values of details.go and the predicates of
--     identifier.go with their assignments. Plan/Trace: `traceValue` on a heap of values, since the values
--     are shared and written in place. Plan/Joins: `ParseJoins`, with the parsers as the record Parsers.
--     Plan/Markers: the markers and ranges of details_utils.go. Plan/Csv: `processFile` and
--     `parseQueryPlan` of cmd/queryplan/main.go.
--   Rounding/Fields: `scanCommaSeparatedField` of cmd/round/main.go with the loop of bufio.Scanner;
--     Rounding/Fields/Lexer and Columns compare it with a reference that reads one byte at a time.
--     Rounding/Decimals: the pattern `"?(\d+\.\d{p})\d+"?` as a search. Rounding/Files: the loop of
--     `processRoundDecimalFile` over the rows and what becomes of the files.
--   Replay/Frames: cmd/replay/frame.go. Replay/Schedule: the loop of `Run` and `QueryFrameScheduler`
--     of cmd/replay/main.go; a goroutine that is started is an entry of a list, and how long the send on
--     the guard of the parallelism blocks for each frame is a parameter.
--   Forward/Poll: the polling loop of `Run` of cmd/forward/main.go. Forward/Queries: `forwardQuery`,
--     `checkAndCancelQuery` and their cache.
--   Compare: `compareRun`, `buildFileIdMap`, `generateDiff` of cmd/cmp/main.go, with the regular
--     expression, the command diff and the writing of a file as the record Tools.
--   Save/Idents, Save/Errors, Save/Summary: `sqlIdent`, `handleQueryError` and `QueryTableSummary` of
--     cmd/save/table_summary.go, with the queries and float64 as the record Session.
--   Examples: the properties at concrete inputs.
--
-- Fuel: the loop of `ScanSqlStmt` gets one round for each byte, since each round moves `pos` on; the
-- loop of the scanner gets one round for each byte and each read, and two more, since each pass uses
-- up bytes, a read, or the end of the file. `checkStageLinks` gets a depth of one more than the
-- number of stages, `ParseStage` one of more than the number of ids that the stage files have, and
-- `runRandomly` a number of rounds: with a count, one more than the count. All are shown to be enough;
-- with a duration `runRandomly` ends when the clock says so. The walk over a plan tree gets a number
-- of jumps to remote sources, for which the rank of the root and one more is enough, and
-- `traceValue` a depth, for which the rank of the value and one more is enough; both ranks are those
-- of a tree or a heap without cycles. The scanner of a row gets its length and three more rounds, a
-- field a round for each byte. The loop of `QueryTableSummary` gets a round for each column and two
-- more. Every other loop is structural. Run counts are 64-bit words whose sum wraps around; other
-- integers stay far below that bound.
--
-- Not modelled: logging, the writing of files, the network clients and databases, time. White space
-- is ASCII's, where the code trims Unicode's too. The grammars that package participle reads, the
-- regular expression of a table handle, the regular expressions and the clusters of cmd/forward and
-- the parser of times are parameters. The rows of cmd/round are read at once, as those of up to 4096
-- bytes are, and its writes succeed. Panics of the client are not modelled, nor is the result
-- channel's capacity, nor the parallel streams of a stage. The reader of `SplitQueries` fails only with
-- the end of the file. Every script of a stage can be started: on one that cannot, as when the context is
-- done before, the code panics, for it asks a process that is nil for its times.
pub mod Compare
pub mod Ddl
pub mod Examples
pub mod Forward
pub mod Plan
pub mod Prelude
pub mod Replay
pub mod Rounding
pub mod Save
pub mod Sql
pub mod Stage
pub mod Utils
