-- ===== src/Lib.antt =====
-- A model of the core logic of atomic-plugins: what its parts compute and how they keep their
-- state, without views, requests and storage back ends.
--
-- The program's parts and their files here:
--   devonian/src/background/BackgroundSync.ts runs passes on a schedule, under a lease that all
--     contexts of an origin share. Background: the state of a schedule (`status`, `due`), one
--     attempt with its failures and waits (`attempt`, split into `refusal` and `run_pass`), `tick`,
--     `syncNow` as `sync_now`, and `resume`. Background/Lease: the process lock, and the steps of
--     any number of contexts that interleave. The store is absent, unreadable or holds a state; what
--     the code throws for an unreadable store is `none`. The clock's readings and the end of a pass
--     are inputs of a step.
--   devonian/src/DevonianIndex.ts knows things by their identifiers on several platforms.
--     Devonian/Index: the tables of one model with `lookupIndexFrom`, `ensureIndexed`,
--     `storeIdentitiesFrom`, `storeEquivalences`, `convertId` and `convertForeignIds`. Objects are
--     lists of pairs in the order of insertion, and a write into an undefined table is `thrown`.
--   devonian/src/reconcileRecord.ts merges two versions of a record over the last agreed one.
--     Devonian/Reconcile: `reconcileRecord` and `acknowledgedBaseline`. The values of properties are of
--     any type; `stringify` of the package is a parameter, for a value and for an object.
--   devonian/src/reflect copies the issues and comments of one system to another and keeps open and
--     closed in step. Devonian/Reflect/Links: the id map of id-map.ts with its keys and `entries`.
--     Devonian/Reflect/Client: the clients of the package as parameters over a state of each side, and
--     `drain` of engine.ts. Devonian/Reflect/Copies: `reflectCreates` and `reflectCommentsOneWay` as one
--     loop, `reflect_all`, with `createIssueCopy`. Devonian/Reflect/States: `reflectState`, `reflectComments`
--     and `reflect`. `create` and `setState` give the message of what they throw; errors of `sync`, `list`
--     and `get`, which end a pass, are left out. The ledger is the one in memory.
--     Devonian/Reflect/Marker: marker.ts, with its regular expression as a recursion over the characters;
--     `encodeURIComponent` and `decodeURIComponent` are parameters. `markers_for` gives it to the engine.
--   integrations/calendar/app/events.ts lays out a day. Calendar/Lanes: `packColumn`, with its
--     variables as a record. The segments come sorted, as its caller sorts them.
--   integrations/timesheets/app/observations.ts remembers what was read and when.
--     Observations/Coverage: `addCoverage` and `mergeCoverage`. Instants are texts; `Date.parse` is
--     a parameter `ms` of the model, and texts that do not parse are not modelled.
--     Observations/Json: JSON values with `stableStringify` and `fnv1a`; a number is its text.
--     Observations/Types: observations, incrementals and the mirror; an object with free names is a
--     list of its entries in the order of insertion. Observations/Diff: `diffObservation` with `pick`
--     and `inScope`. Observations/Fold: `comparePositions`, `applyIncremental`, `fold`, `coverageKey`,
--     `sortCoverage` and `mirrorDigest`. Prelude/Reordering is about sorting what was reordered.
--   integrations/money/identity.ts names the bookings of a bank statement, for the importer and for
--     the preview. Money/Identity: `entries`, with its errors as values, on the texts that
--     JSON.stringify makes (Prelude/JsText). Money/Types: the rows of integrations/money/parser.ts
--     and integrations/money/app/rows.ts.
--   integrations/money/app/check.ts compares a file with the table. Money/Check: `compare`, on the
--     result of `entries`. A problem holds the data of the code's problem; its fixed message is left
--     out.
--   integrations/money/app/amounts.ts keeps amounts exact. Money/Amounts: `units` of parser.ts and
--     `fromUnits`, `isOut`, `negate` and `addAmounts`, on integers and lists of code units. `BigInt` of
--     a text that is not digits is `none`, though it reads some other forms. Money/Days: `totals`,
--     `sumByCurrency` and `groupByDay`, where `none` is what `units` throws.
--   integrations/money/app/ledger.ts orders and sums up the rows of the table. Money/Ledger: periods,
--     `defaultPeriod`, `sortNewestFirst`, `accounts`, `latestDate` and `closingBalance`. The year and
--     the month of `today` come as numbers. Money/Statements: `importedStatements` up to its sort.
--     Prelude/Sorting is `list.sort`, which is stable, and Prelude/Grouping a `Map` with its order
--     of insertion.
--
--   integrations/willow-drop reads a Willow drop from a file, verifies it and makes rows of its entries.
--     Willow/Reader and Willow/Encoding: the `Reader` of encoding.ts as a function from the bytes that
--     remain to a result and those that remain then, compact U64s and paths, read and written.
--     Willow/William3: the digest of william3.ts. Willow/Drop: `decodeDrop` of drop.ts with
--     `decodeEntry` (in `decode_entry` and `verify_entry`) and `decodeToken`; `verify` of the package
--     for Ed25519 is a parameter, and `none` is its exception. Willow/Text: UTF-8 and base64.
--     Willow/Mapping and Willow/Rows: the order of entries, `prune` and `rowValues` of mapping.ts,
--     where `toISOString` is a parameter. Willow/Upload: `readUpload` of upload.ts, which tries
--     `decodeDrop` on the bytes that a text may stand for. Willow/Import: the loop of `run` in plugin.ts,
--     where the host's rows are a parameter. Prelude/Domination is the general part of
--     pruning. Shifts and masks by numerals are division and remainder; 32-bit words keep their `% 2 ^ 32`.
--
-- Numbers are natural numbers without bound: times in milliseconds, minutes and counts stay far
-- below the range where the code's numbers are exact. Decimal digits are made on fuel `suc n` for
-- the number `n`, and each step at least halves it. The tree of a digest is made on as much fuel as
-- there are chunks, of which each part has fewer, and `utf8Text` in as many rounds as there are bytes,
-- of which each takes one or more. A drop is read with a count of the entries that are still allowed.
-- `drain` looks as often as its
-- timeout has milliseconds, and twice more, of which each look but the first comes after a sleep.
-- All other functions recurse on lists or on the number the code counts down.
--
-- Not modelled: the runner of reflect, the readers of MT940 and camt.053, which are expressions and an
-- XML parser of a package, the lenses of the integrations, the stores, the observation log's store,
-- the views with the calendar's days and the filters of the ledger that stand on the platform's time
-- zones and letters, the service in integration-proxy, the Willow importer's configuration and notes,
-- and the data of the ontologies. They are input and output, or mappings between formats.
pub mod Background
pub mod Calendar
pub mod Devonian
pub mod Money
pub mod Observations
pub mod Prelude
pub mod Willow
