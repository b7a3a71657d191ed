-- ===== src/Lib.antt =====
-- A model of spec-cli, a command line tool that keeps a workspace of Markdown documents (entities with
-- YAML front matter) in line with a schema: the shared core of its reading and writing commands.
--
-- A read (query, get and the GraphQL command) goes from a request to a plan and from the plan over the
-- loaded entities to pages of projected ones. A write (add, update) turns arguments into values,
-- resolves references and picks ids; delete checks what refers to its target. All report their
-- failures as one kind of error.
--
--   Errors        internal/domain/errors/codes.go
--   Values        internal/application/values/values.go: the decoded YAML values (`any`)
--   Selectors     internal/application/selectors/selectors.go: `Insert` and the tree
--   Read          internal/application/readmodel
--     Capability    what the schema tells the reads (schema/capabilities/read/builder.go), with
--                   `HasRefField` and `RefLeafCompatibility` of selectors.go
--     Select        `validateSelector`, `buildSelectTree` of engine/select.go
--     Projection    `projectEntity`, `projectMap`, `projectValue` of engine/select.go
--     Sort          `buildEffectiveSort` and its checks of engine/sort.go
--     Order         `SortEntities`, `compareLiteralValues` of ordering/sort.go; Contract is what
--                   sort.SliceStable promises, Uniform fields of one kind each
--     Planner       `BuildPlan` of engine/planner.go
--     Execute       `Execute` of engine/execute.go: `match_entities`, `paginate_entities`,
--                   `project_page` and `page_info` are its parts, `execute_root` one round of its loop
--     Load          `LoadEntities` of workspace/loader.go, with documents.go, views.go, references.go
--   Ids           internal/application/commands/internal/entityids/entityids.go, and the suffixes of
--                 add (add/internal/workspace/snapshot.go, add/internal/engine/execute.go)
--   Refs          Classify: internal/application/entityrefs/refs.go, for reads;
--                 Resolve: internal/application/commands/internal/refresolve/resolver.go, for writes
--   Write         the data of internal/application/commands/internal/writemodel;
--                 Values: writeops/resolve.go; Paths: writeargs/writeargs.go and refused write paths;
--                 Capability: the writable paths of a type (schema/capabilities/write/builder.go,
--                 internal/application/collections)
--   Sections      internal/application/entitydoc/sections.go: Heading has its patterns; Blocks is the
--                 view of a body as lines in front and labelled blocks, which the edits are told by
--   Update        internal/application/commands/update/internal/engine: Preflight and Apply are
--                 `preflight` and `applyWrites` of writes.go, Lines the edits of a body there; Storage
--                 is storage.go, as steps from a disk to a result and a disk; Candidate and Execute are
--                 execute.go, from a snapshot and a disk to an answer and a disk
--   Pathcalc      internal/application/commands/internal/pathcalc/evaluator.go
--   Check         the checks of a candidate: Rules is commands/internal/schemarules/rules.go and
--                 schema/rulevalues, Entity is commands/internal/entitycheck/entitycheck.go
--   Frontmatter   internal/application/entitydoc (frontmatter.go; Locate: locate.go), yamlnodes/nodes.go
--                 and commands/internal/markdown/serializer.go (Serialize): a document as its text
--   Interpolation internal/application/schema/expressions/interpolation.go, and printing a value
--   Workspace     `BuildSnapshot` of add, update and delete (Add, Update, Delete), and entitydoc/scan.go
--   Add           internal/application/commands/add/internal/engine: writes.go, and Execute is
--                 execute.go with validation.go; the write of a new file is with Update.Storage
--   IoFailure     internal/application/iofailure/iofailure.go
--   Delete        internal/application/commands/delete/internal/engine, as a step from a disk to an
--                 answer and a disk
--   Common        the names, lists, texts, decimals and maps that all of them share
--   Tests         sample data, and the theorems at concrete inputs
--
-- Maps with text keys are association lists; a range over a map is sorted by the code before its order
-- is seen. Texts are lists of code points, as in valid UTF-8. Loops are structural recursions; the one
-- function with fuel, `follow` of Read.Execute.Paging, is a client of the model, whose fuel is one
-- request more than there are matches. An int has 64 bits: `int_mod` is the first number that
-- is none. Limits and offsets are not negative, as the option parsers check.
--
-- Parameters: floats, times and the sort of entities (`Scalars`), the compiled filter (a function of a
-- document, from the JMESPath library) and what where.go makes of its text, the evaluation of
-- expressions and templates, `os.ReadFile`, `os.Remove`, the walk of a directory, path/filepath, the
-- parser, decoder and encoder of YAML (a parsed document is a `Node`, with the kinds that the code
-- tells apart), the hash of a text, and, for a write, what the operating system answers to every call
-- (`Answers` of Update.Storage; a call that fails changes nothing, but for a write to a temporary
-- file). Where a list is sorted by texts, the sort is an insertion sort, as every stable sort has the
-- same result by a strict weak order. The order of entities need not be one, so there sort.SliceStable
-- is a parameter (`slice_stable` of `Scalars`), and what it promises is a hypothesis
-- (Read.Order.Contract). A panic of the source is a value (`panicked`) where it can come from the
-- arithmetic of a page or from a type assertion on a written value.
--
-- Not modelled: the command line and its output, help texts, GraphQL, the compilation of schemas and
-- expressions, where.go, the payload of a candidate, get, validate, and the lock of the workspace.
-- They are input and output, or stand on libraries that are not in the repository, or are to be
-- modelled next. The path of a candidate is an argument of `execute` of add and update, and for update
-- also its checks and its text, each of which is modelled on its own.
pub mod Common
pub mod Values
pub mod Errors
pub mod IoFailure
pub mod Selectors
pub mod Read
pub mod Ids
pub mod Refs
pub mod Write
pub mod Delete
pub mod Sections
pub mod Update
pub mod Pathcalc
pub mod Check
pub mod Frontmatter
pub mod Workspace
pub mod Interpolation
pub mod Add
mod Tests
