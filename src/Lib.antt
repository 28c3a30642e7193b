-- ===== src/Lib.antt =====
-- Verification of the JavaScript tooling of the repository (.kilo/get-shit-done/bin/lib and
-- .kilo/hooks), which plans, checks and remembers the work on the project. The modules are called
-- one by one from .kilo/get-shit-done/bin/gsd-tools.cjs and meet in the files that they read and
-- write; the hooks are run by the editor after each tool call.
--
-- The parts and the files that model them:
-- * .kilo/get-shit-done/bin/lib/graphify.cjs, the knowledge graph. Graphify.antt has the data
--   (nodes, edges, what a JSON read gives). Graphify/Adjacency is buildAdjacencyMap;
--   Graphify/Query is seedAndExpand, whose loops are folds over a record of the four mutated
--   sets; Graphify/Budget is applyBudget; Graphify/Diff has the comparison of graphifyDiff;
--   Graphify/Api has the commands query, status, diff, build and snapshot over a record of the
--   project's files. The proofs about each stand in the files below it.
-- * .kilo/get-shit-done/bin/lib/schema-detect.cjs, the schema gate. SchemaDetect/Patterns has the
--   two tables of regular expressions, SchemaDetect.antt detectSchemaFiles and checkSchemaDrift.
-- * .kilo/get-shit-done/bin/lib/core.cjs, of which Phases.antt has normalizePhaseName and
--   comparePhaseNum. The number that a comparison returns is reduced to its sign.
-- * .kilo/get-shit-done/bin/lib/model-profiles.cjs and resolveModelInternal of core.cjs: Models.antt
--   has the table of agents and the choice of a model, on the settings that it reads.
-- * .kilo/get-shit-done/bin/lib/learnings.cjs, the knowledge store. Learnings.antt has write, read,
--   list, query, delete and prune over a directory of files, Learnings/Ids the ids and durations,
--   Learnings/Copy the copy of a project's LEARNINGS.md into the store.
-- * .kilo/hooks/gsd-context-monitor.js, the context monitor. ContextMonitor.antt is the whole
--   handler, from its input to its message, over the warn files of all sessions.
-- * .kilo/get-shit-done/bin/lib/config.cjs, the project's settings. Config/Keys has the accepted keys,
--   Config/Values the loops of setConfigValue and cmdConfigGet
--   (Config/Arrays what they do on an array), Config/Defaults the settings of a new
--   project (with CONFIG_DEFAULTS of core.cjs), Config/Commands the commands over what config.json
--   holds.
-- * .kilo/get-shit-done/bin/lib/security.cjs, the checks of input: Security/Patterns and Security/Scan
--   are the injection scan, Security/Paths validatePath, Security/Arguments the checks of phase
--   numbers, field names, shell arguments and JSON text, Security/Structure the check of a prompt's tags.
-- * .kilo/hooks/gsd-prompt-guard.js, gsd-read-injection-scanner.js, gsd-workflow-guard.js and
--   gsd-read-guard.js: the four files below Hooks.antt. The first two share the patterns of
--   security.cjs by copy, which a theorem relates to the scan itself.
-- * withPlanningLock of .kilo/get-shit-done/bin/lib/core.cjs and acquireStateLock of state.cjs: Locks.antt
--   has the turns of several processes on the planning lock, Locks/StateLock the ten attempts at the
--   lock of STATE.md. The commands of config.cjs are modelled as they run under the lock.
-- * .kilo/get-shit-done/bin/lib/frontmatter.cjs, the YAML subset at the top of markdown files.
--   Frontmatter.antt has the values, Frontmatter/Lines the regular expressions and splitInlineArray,
--   Frontmatter/Parser extractFrontmatter with its stack of frames, Frontmatter/Printer
--   reconstructFrontmatter and spliceFrontmatter, Frontmatter/Commands get, set, merge and validate.
--   An object is an association list in insertion order; integer-like keys, which JavaScript moves to
--   the front, and the names of an array's own members are left out.
-- * normalizeMd of .kilo/get-shit-done/bin/lib/core.cjs, through which markdown files are written:
--   Markdown.antt.
-- * .kilo/get-shit-done/bin/lib/state.cjs, of which StateFields.antt has the reading and replacing of
--   one field of STATE.md, over any case folding.
-- * Common.antt and its children hold text (a list of UTF-16 code units), lists, and a syntax of
--   regular expressions with its matcher.
--
-- Conventions. A JavaScript object used as a map is an association list; a key of Object.prototype
-- is outside the model. Numbers are natural numbers, without the rounding beyond 2^53, and times
-- count from 1970. Where the code asks its surroundings, the model takes the answer as an argument:
-- String.toLowerCase, String(v), Number(s), localeCompare, SHA-256, the date parser, the clock, random
-- bytes, the result of JSON.parse and of the graphify process.
--
-- Fuel: the digits of an id in base 36, and those of a decimal number, are made on fuel of the number
-- plus one, which is enough since each step divides by the base. All other loops are structural; the
-- hop limit of a query and the ten attempts at the lock of STATE.md bound their loops in the code too.
--
-- Not modelled: printing and exit codes, a warn file of the context monitor whose counter is
-- negative or no number, the sanitizers and the entropy scan of security.cjs, the version check of
-- graphify, parseMustHavesBlock of frontmatter.cjs, the rest of core.cjs and of state.cjs, the
-- table that config-set-model-profile prints, and the modules of .kilo/get-shit-done/bin/lib and
-- .kilo/hooks not named above, most of which read and rewrite markdown files. The Python
-- application under src/sagasmith is a separate program.
pub mod Common
pub mod Config
pub mod ContextMonitor
pub mod Frontmatter
pub mod Graphify
pub mod Hooks
pub mod Learnings
pub mod Locks
pub mod Markdown
pub mod Models
pub mod Phases
pub mod SchemaDetect
pub mod Security
pub mod StateFields
