-- ===== src/Lib.antt =====
-- The Boule protocol (the Python package src/boule of daryxx-boule-protocol): its signed core.
--
-- Two agents work on a case. A clerk keeps a hash-chained ledger of signed events, a state machine
-- replays it, an independent panel of reviewers commits to ballots and reveals them, and the ballots
-- are aggregated to a provisional decision. Beside that, a workspace keeps the event log of one
-- problem: sessions, work claims with leases, handoffs, and candidates that are submitted, verified,
-- reviewed and resolved. Participants send signed envelopes to the clerk of a workspace, who orders them
-- in the log and answers with signed receipts, snapshots and chain proofs.
--
-- The parts, from the bottom up:
-- Prelude: the library's names, tests on numbers and texts as Booleans, lists.
-- Python: exceptions as a result type (src/boule/errors.py), dicts as association lists in the order of
-- insertion, JSON values, texts, and sorted.
-- Crypto: src/boule/canonical.py and src/boule/crypto.py. What is not of the repository is the record
-- Platform: json.dumps, SHA-256, base64, Ed25519, and datetime with its ISO format. IsSound states what
-- the theorems on signing use of it: that decoding undoes encoding, the lengths of keys and signatures,
-- and that a key accepts what it signed.
-- Model: src/boule/model.py. Fields has the checks of a field; Cases, Records and Ballots the validators;
-- Controllers and Bounds what an accepted case is.
-- Moderation: src/boule/moderation.py. Select has the panel and the commitments, Aggregate the ballots'
-- shares and the decision.
-- Ledger: src/boule/ledger.py. Events, Chain (create, append, _append_event, _rollback_last) and Verify.
-- Protocol: src/boule/protocol.py. State, Evidence, Review and Apply are ProtocolState with one function
-- per kind of event; Session is ProtocolSession, with the session as a state that the methods pass on.
-- Remote: src/boule/remote_protocol.py. Checks has the checks of a field; Envelopes, Receipts, Snapshots
-- and Chains build and verify the four kinds of signed objects. Agreed and Admitted say what a verified
-- envelope holds, Linking and Runs what the links of a chain proof are.
-- Workspace: src/boule/workspace.py. Project and Expiry are _state_from; Claims, Publish, Maintain and
-- Authorize are _authorize and _authorize_maintainer; Status is _problem_status and _research_resume;
-- Log is the second loop of _events, which authorizes the events. Rule, Kinds and Accepted carry an
-- invariant over a log; Linked, Ageing, Reading, Verdicts and Projecting are for Totality, and Counting,
-- Candidates, Allowed, Feedback and Search for Adjudication and Resumption.
-- Workspace/Clerk: the log as its files hold it, and the clerk's answers, of the same file. Entries
-- and Contents are the first loop of _events, which checks the chain and the signatures; Load is
-- _events as a whole with its guard receipts; Append has append_envelope, remote_receipt and
-- remote_chain_proof; Format has the texts that are formatted, with the promises of the standard
-- library about them, IsStandard. Reads, Extending, Requests, Kept and Loaded are about a log with one
-- more event, Ordering, Admitting, Ordered, Opened and Answers about the event that is added,
-- Formatting and Proving about its texts and its links, Naming about the names of the event files;
-- Keeping, Repeated, Fetching, Proofs and Snapped are about the clerk's answers.
-- Tests: two platforms, a whole run of a session to its decision, a log up to its resolution, and an
-- envelope with its receipt.
--
-- How the code is read. A function that raises gives an error, with the message as the source spells
-- it and its interpolated parts left as braces; what Python itself raises (KeyError, TypeError,
-- StopIteration) is the error crash. A dict is an association list, an integer that the code checks to
-- be 0 or more is a natural number, any other JSON number is a Value, and an instant is a number of
-- microseconds since datetime.min. Adding a duration to it is the error crash past the year 9999, as
-- OverflowError is. A float is a Value that keeps its text and the integer that it equals, if any; it
-- is finite, and texts have no lone surrogates, so that json.dumps and the encoding of canonical_bytes
-- do not raise. The handlers of ProtocolState change the state in place, after their last test: a call
-- that raises has changed nothing, which the model says by giving a new state or an error. An object
-- that the source shares between two dicts is kept once, under its key. A set of fields is read in the
-- order of the source, and an event's sequence number is an int. Recursion is on lists; only the
-- digits of a number are written on fuel, which is the number plus one. The theorems on new events ask
-- for fewer than a hundred million of them: the names of the event files, and so their order, have
-- eight digits.
--
-- Not modelled: files, locks and the network; the decoding of JSON and the clerk's URL in
-- src/boule/remote_protocol.py; _append, maintainer_tick, remote_snapshot and the public projection of the
-- workspace; the registry, the community, the clerk's and the registry's APIs, the agent runner and the
-- user interfaces.
pub mod Prelude
pub mod Python
pub mod Crypto
pub mod Model
pub mod Moderation
pub mod Ledger
pub mod Protocol
pub mod Remote
pub mod Workspace
pub mod Tests
