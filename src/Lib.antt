-- ===== src/Lib.antt =====
-- Coltrane runs gigs: a genome describes standards, agents and institutions, a queue hands gigs to
-- workers, and institutions say who may sit where and which laws hold. These files model the parts
-- of src/ that decide things, and leave out the parts that only move bytes.
--
-- Base: names of the libraries passed on, tests on numbers, lists and filters, sets of names, dictionaries,
--   texts and JSON values. A JavaScript number is a natural number where the code stores or compares it.
--   A dictionary is a list of entries, read through its first entry of a key. The code looks names up
--   in plain objects too; the names of Object.prototype are taken not to occur among them.
-- LocalQueue (src/local_queue.ts): the file-backed queue. Files.antt has the stored row and the six
--   directories, Gigs.antt what a verb makes of a row, LocalQueue.antt the verbs enqueue, claim,
--   heartbeat, reap, park, approve, cancel, complete and fail, each from the disk to the disk.
--   Verbs.antt makes them data, so that a history is a list. Copies.antt counts the directories that
--   hold a gig, Conservation.antt follows the count through each verb and Histories.antt through a
--   history. Terminal.antt and Sealing.antt are about sealed gigs, Claims.antt and Leases.antt about
--   who holds what, Approvals.antt about parked gigs, Races.antt about a reaper that runs between two
--   awaits of one verb, and Backing.antt is `selectQueueBacking`. The hash of an output, a random UUID
--   and the clock are arguments. Views.antt is `list`. The wrappers for the server are left out.
-- Residency (src/residency.ts): the row, the table of legal transitions, `applyResidencyOp` and
--   `reapResidency`. Laws.antt is about one operation, Histories.antt about sequences, Boot.antt
--   has the seating of a row, the reflex acknowledgement, impressions and credentials.
-- Law (src/institution_enforcement.ts): Syntax.antt is `tokenize` and `parse`, on fuel of one more than
--   the length of the text and of twice the number of tokens plus one; Termination.antt shows that it
--   suffices. Reader.antt has a printer and the reader against it. Evaluation.antt is `asBool`,
--   `asVerdict` and `evaluate`, Kleene.antt the three-valued logic that they are, Symbols.antt
--   `collectSymbols`, and Reads.antt what an evaluation depends on. Admissibility.antt is `checkLaw`,
--   `checkChair`, `checkInstitutionAdmissibility` and `lawCheckIsEvaluable`; Declared.antt, Admitted.antt
--   and Admission.antt say what they let through.
-- Access (src/access_grant.ts): grants, with `Date.parse` and the test of a regular expression as
--   parameters. Plans.antt and Exposure.antt have the theorems.
-- Genome: Versions.antt is src/type_versioning.ts, Lineage.antt src/lineage_adoption.ts with Adoption.antt
--   on it, Placement.antt src/placement_institutions.ts with Seats.antt on it.
-- GigTracker (src/gig_tracker.ts): the live state of a gig folded from events (Rows.antt), and the
--   pruning of settled runs (Retention.antt).
-- GigConformance (src/gig_conformance.ts): the classification of a run at its close; Declared.antt
--   and Origins.antt say what its tests mean, and Verdicts.antt when a run is clean.
-- Portfolio (src/portfolio.ts): projects parked and resumed on the text of a log, with what JSON.parse makes
--   of a line as an argument; Sealed.antt takes a project from the one to the other.
-- Song (src/circle_of_fifths.ts, src/modulation_path.ts, src/polyphony.ts): Circle.antt and
--   Distances.antt, Paths.antt and Travel.antt, Polyphony.antt and Chords.antt.
-- Canonical (src/canonical_form.ts): the text a value is hashed by. Printing.antt is JSON.stringify on the
--   values of the model, with Printing/Injective.antt for its injectivity and
--   Printing/Characters.antt and Printing/Lines.antt for its characters. Facts.antt says when two values
--   state the same and Forms.antt, Structure.antt and Density.antt what the canonical forms keep.
--   Contents.antt and Fingerprints.antt are about the hashes of outputs, runs and definitions, over a
--   digest that is an argument. A key `__proto__` is lost, as in JavaScript. Texts are ordered by code points, and keys that are array indices and
--   numbers from 10^21 on, which JavaScript orders and prints in a way of its own, are outside the model.
-- FanOut (src/fan_out.ts, src/seat_plan.ts): the expansion of a chair into one seat per item. Records.antt
--   has the records and the paths into them, Sources.antt where the items come from and their keys,
--   Slices.antt the part of a record that a seat is given, Expansion.antt `expandFanOut`, Stages.antt
--   the steps that a successful expansion went through. Seats.antt, Coverage.antt and Views.antt say which
--   seats there are, which items none of them takes and what each is shown. Plan.antt is the seat plan and
--   Gathering.antt `fanOutInstances` of src/runtime.ts, which says what a run splits a chair over, and
--   Planning.antt holds the plan against the run. The digest and the test of whether a record is of a type
--   are arguments.
-- Composition (src/composition.ts, with the schema of a standard in src/genome_schema.ts): the standard
--   that `composeStandard` accepts, with a result in place of what it throws. Chairs.antt checks each
--   chair, Graph.antt the edges between chairs and the search for a cycle, Flow.antt the inputs that a
--   chair is fed; Compose.antt puts the checks in the order of the code. The search has fuel of one more
--   than the number of roles, and Ending.antt shows that it suffices. The roles that a role depends on
--   through others are gathered on fuel of the number of chairs; Reach.antt shows that it suffices where there
--   is no cycle. Order.antt, Accepted.antt,
--   Seated.antt and Roles.antt say what holds of a standard that is composed. Agents.antt is
--   `defineAgent` and `standardContentHash`, with what the schema makes of a definition as an argument,
--   and Defined.antt is about the agents that are let through.
-- TurnLoop (src/turn_loop.ts): the turn of a seat. Messages.antt has the messages, records and options,
--   Hands.antt the tools that a turn is offered and their calls, Spend.antt the price of a round and the
--   totals, Rounds.antt `runTurn`. The loop is by recursion on the rounds that are left. The model's port
--   and the source of tools pass a world from call to call, and the events are a list in the turn.
--   Histories.antt is induction over a turn; Accounts.antt, Transcripts.antt, Reach.antt, Bounds.antt and
--   Refusals.antt are about its totals, messages, calls, length and refusals.
-- Ledger (src/ledger.ts): `validateEntry`, the filters, and the interface `Ledger` as a record over a type of
--   states, with `MemoryLedger` and `SplitLedger`; File.antt is `FileLedger` on the text of its file, with
--   `upgradeV1` and `parseLine`. Written.antt holds the file against the ledger in memory, Split.antt the
--   split ledger against a single one, and Damage.antt is about an append to a torn file. JSON.parse and
--   String(v) are arguments. A failure of the disk that the source wraps and throws is left out, and the
--   times of a filter are compared by code points.
-- ReservePool (src/runtime.ts, `BudgetState`, `prepareChair` and the events of a running chair): the
--   turns that a gig lends its chairs, as operations on the snapshot, the holds and the chairs that run.
--   Lending.antt is about the turns lent, Yielding.antt about the state of the gig. An event reaches a chair
--   only while it runs. The ceiling in dollars, which may also stop a gig as depleted, is left out, and so is
--   the state `settled` at the end of a gig.
-- The Tests modules run the definitions on small inputs.
--
-- Not modelled: the server, the command line, the invokers of models, the venues and the stores, which
-- are processes and network; the rest of the runtime, the composition of charts, outputs and their
-- reuse, and the bus.
pub mod Base
pub mod LocalQueue
pub mod Residency
pub mod Law
pub mod Song
pub mod Access
pub mod Genome
pub mod GigTracker
pub mod GigConformance
pub mod Portfolio
pub mod Canonical
pub mod FanOut
pub mod Composition
pub mod TurnLoop
pub mod ReservePool
pub mod Ledger
