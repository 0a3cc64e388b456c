-- ===== src/Lib.antt =====
-- A model of the core of the frama-c-mcp server: an MCP server that drives Frama-C over a Unix socket
-- and keeps, for each C function, what has been proved of it and on what evidence.
--
-- The parts and their files.
--
-- Wire models src/frama-c and src/error.rs. Wire/Codec is codec.rs on bytes: encode_frame,
-- decode_frame and the commands and responses (Wire/Message), with JSON as values (Json) whose printer
-- and parser, serde_json's, are arguments. Wire/Transport is transport.rs: the read buffer, the poison
-- flag and the bytes that went into the socket, where each write and read of the socket ends as an
-- argument says. Wire/Client is client.rs: the wait of a GET, the poll loop of a SET or EXEC, the
-- responses that end a request and the paged fetch, over lists of rounds that say what the clock
-- showed and what a receive answered. The client reads responses that the transport delivers.
--
-- Status models src/mcp/status.rs, and Verdicts the predicates of src/mcp/verdicts.rs on rows of the
-- property table and of the goal table, which the client fetched and status.rs enriched.
--
-- Receipt models the shape of a proof receipt (src/mcp/receipt.rs), Receipt/Evidence the reasons why one
-- is not evidence (proof_receipt_evidence_error of src/state.rs). Session models the rest of
-- src/state.rs that is named in its files: Session/Conclusions the merge of an update, the check on a
-- verified conclusion and the two kinds of staleness, Session/Store the operations (store_conclusion,
-- on_sandbox_created and so on) and in Session/Store/View the same update of a map, Session/Receipts the receipts that a session remembers, and
-- Session/Caches the functions, the globals and the call graph. SHA-256 over a text and over a JSON
-- value is an argument, a record of two functions of which nothing is assumed.
--
-- Check models what a check leaves open (src/mcp/checkgaps.rs): Check/Load, Check/Rows and
-- Check/Proofread the gaps of the load, of property rows and goals, and of findings, which Check/Items
-- joins as check_incomplete_items does, Check/Target the verdict split by target, Check/Probes the gaps
-- of smoke tests, contract mutants and the memory model, Check/Messages those of WP's messages and of a
-- weakened model, and Check/Variants the summary over variants. Check/Gates is run_evidence_gates of
-- src/mcp/analysis.rs with the diagnosis of WP's backend, and the verdict of check_payload, which is
-- "proved" when the gaps of check_incomplete_items, of the gates and of the program are none. They ask the
-- predicates of Verdicts. That the probe of the memory model says why it did not run is a hypothesis: each
-- probe that the source builds with probe_absent does.
--
-- Coverage models src/mcp/coverage.rs: Coverage/Drift what a receipt's file hashes say of the files as
-- they are, Coverage/Profile the proof targets of a project (Coverage/Profile/Parse reads a
-- map of them, as src/state.rs does) and profile_evidence_error of src/mcp/conclusions.rs, Coverage/Reason why a conclusion is no evidence, Coverage/Rows and
-- Coverage/Report proof_coverage_report, and Coverage itself the pass that takes the coverage of a caller
-- away when a callee has no evidence. The report reads the conclusions of Session. Topo is
-- src/topo.rs: the flattening of levels of the call graph into a verification order, and in Topo/Ready
-- the functions that can be verified next, where petgraph's components are an argument. Wp/Failure is the
-- classification of a failed goal in src/mcp/wpclass.rs, Wp/Route the verdict and the next action made of it,
-- and Wp/Triage what the timeouts of a goal and of a run show.
--
-- Names are those of the source, but for the helpers that a loop or a branch of a function became.
-- Prelude holds the names and the lemmas that all files share, Examples the theorems at concrete
-- inputs.
--
-- Representation. Numbers are the native naturals: a u32 is taken modulo 2 ^ 32 where the source casts
-- to it and saturates where the source does, a u64 counter wraps. Texts of the wire are their UTF-8
-- bytes; the frame decoder checks the encoding as Rust does. A hash map is an association list, whose
-- order no result depends on but that of the names that store_conclusion answers, which is not
-- specified in the source either. Error messages are constructors, with the values that they print.
--
-- Loops. The loops over the socket and the clock recurse on the list of rounds, and answer that they
-- are still open when it ends: the theorems on the deadline show that a round past it closes them.
-- receive_all and the loop of propagate_unverified_callees take fuel,
-- and their theorems say how much is enough: one receive more than there are payloads and reads, one
-- round more than there are covered rows. proof_coverage_report gives it one round more than there are
-- rows.
--
-- Not modelled: processes, files and sockets themselves, tracing, the tool handlers of server.rs and
-- analysis.rs, which join these parts to the MCP library, and the scanners and generators of ACSL text.
-- The rest of wpclass.rs, of topo.rs and of conclusions.rs, and of checkgaps.rs the guidance texts, the pinned
-- properties and the harness of reachability properties are left for later; the gaps that program_facts adds
-- are an argument of the verdict, and so is what the probe of the memory model answers. The
-- file system, Path, and floats are other packages': they are arguments.
pub mod Prelude
pub mod Json
pub mod Wire
pub mod Status
pub mod Verdicts
pub mod Receipt
pub mod Session
pub mod Coverage
pub mod Topo
pub mod Wp
pub mod Check
pub mod Examples
