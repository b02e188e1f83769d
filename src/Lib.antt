-- ===== src/Lib.antt =====
-- Verification of the backend of can-framework (backend/app): the bridge between direct value and
-- money, the value map with its queries, proofs, valuations and documents, the introductions between its
-- nodes, the agents whose records wait for review, and the record of a person with its corrections.
--
-- The program is a web service over tables of rows. A request reads rows, changes them in a session and
-- commits; a request that raises rolls back what it has not committed. Prelude/Outcome.antt is that
-- session: a pair of the committed and the working tables, with `modify` for a write, `commit` and
-- `save` for a commit, `raise_if` for a guard, and `request`, which runs a handler and keeps what was
-- committed. The tables are lists in the order of `created_at`. Prelude/Handler.antt has the same operations
-- with opaque steps, for proofs that go by the structure of a handler, and `transmit` for a message
-- that leaves the node.
--
-- Files:
--   Prelude.antt        shared names; Prelude/Int signed numbers, Prelude/Table queries and updates of
--                       tables, Prelude/All predicates on every row, Prelude/Outcome sessions
--   Money.antt          amounts: decimals with nine places instead of floats, and Python's `round`
--   Bridge/Records      backend/app/bridge/models.py, backend/app/bridge/mandate_models.py
--   Bridge/Rails        backend/app/bridge/rails.py
--   Bridge/Wallet       get_or_create_wallet, credit, pledged_amount of backend/app/bridge/service.py
--   Bridge/Pledges      create_pledge, release_pledge, settle_down of backend/app/bridge/service.py;
--                       Exact has when a settlement goes through and Steps has them as steps
--   Bridge/Payments     backend/app/bridge/agent_payments.py
--   Bridge/Mandates     grant_mandate, revoke_mandate and agent_pay of backend/app/bridge/routes.py
--   Bridge/Suppliers    pay_invoice of backend/app/bridge/service.py; Gains has what its steps credit
--   Bridge/Funding      funding_mix, propose_contribution and decide_contribution of
--                       backend/app/bridge/service.py
--   Bridge/Handlers     the handlers of backend/app/bridge/routes.py that change state, beside those of
--                       mandates
--   Bridge/Views        wallet_view of backend/app/bridge/service.py, and the lists and pages of
--                       backend/app/bridge/routes.py
--   Introductions/Records, Peers, Paths, Flow, Hops, Replies
--                       backend/app/value/introductions.py, and Peer, sign_request and call_peer of
--                       backend/app/value/peer_models.py and backend/app/value/forwarding.py: `start` in
--                       Flow, `receive` and `decide` in Hops, the replies and the commitment in Replies
--   Introductions/Steps the requests as steps between the tables of a node, and which invariants they
--                       keep; Discretion, Growth and Commitment prove by it
--   Agents/Records      backend/app/agents/models.py, backend/app/agents/config.py
--   Agents/Queue, Review
--                       backend/app/agents/service.py; Steps has the requests as steps, and Bounds,
--                       History and Admission prove by it
--   Accounts/Roles      roles, principals and visibility of backend/app/core/auth.py
--   Accounts/Ledgers    LedgerEntry, EntryDispute and CareConsent of backend/app/db/models.py, and
--                       backend/app/services/ledger.py
--   Accounts/Corrections, Consent
--                       backend/app/services/corrections.py, backend/app/services/care_consent.py;
--                       History, OneOpen and Exact prove about them
--   Accounts/Appeals    AllocationRequest and Appeal of backend/app/db/models.py,
--                       backend/app/services/allocation.py, and the handlers of
--                       backend/app/api/routes/allocation.py and backend/app/api/routes/appeals.py;
--                       Pages has what only reads, Independence the requests as steps
--   Accounts/Handlers   backend/app/api/routes/ledger.py; Attested proves about it
--   Value/Records       backend/app/value/map_models.py, and QueryLog of backend/app/value/peer_models.py
--   Value/Commitments   backend/app/value/commitments.py; Rate proves about the limit on queries
--   Value/Proofs        backend/app/value/proofs.py: `sign` is `_sign`, `verified` is `_verify_signature`;
--                       Verify has `verify_proof`, Checks has what a proven answer rests on, Relay what relays make of proofs
--   Value/Forwarding    backend/app/value/forwarding.py; Results has what comes after a search, Paths
--                       and Sound have what a search returns
--   Value/Peering       the handlers of backend/app/value/map_routes.py for peers, for the query of a
--                       peer and, in Federated, for a federated query; Kept and Steps have the requests as steps, Network
--                       has nodes that answer one another, Honest what each may count on, and Answers the
--                       composition of all of it
--   Value/Discovery     the handlers of backend/app/value/map_routes.py for items, queries and the log
--   Value/Engine        backend/app/value/engine.py, and AssetEvidence of backend/app/value/models.py:
--                       configuration, inputs and confidence; Scenarios has values, scenarios and
--                       `valuate`; Bounds and Confidence prove about them
--   Value/Access        backend/app/value/access.py, and Asset and AssetShare of
--                       backend/app/value/models.py
--   Value/Documents     backend/app/value/documents.py, with current_evidence of
--                       backend/app/value/engine.py: the builders here, `verify_document` in Reports,
--                       `import_document` and the handler `import_doc` of backend/app/value/routes.py in
--                       Arrivals; Checked and Imported prove about them
--   Tests               tables and runs at concrete values
--
-- How the parts interact: a handler gets a wallet (Wallet), asks a rail to settle (Rails) and credits
-- holdings (Wallet); pledges bind holdings (Pledges), and a payment by an agent spends free cash under
-- a mandate (Payments). An introduction travels a path of nodes: each holds a row, forwards the offer
-- to the next one (Flow, Hops) and passes the answer back (Replies), and what a peer carries adds to its
-- weight (Peers). An agent derives records within its limits (Queue), and people review them (Review).
-- A federated query is counted (Commitments), answered here and handed to peers (Forwarding), whose own
-- `peer_query` answers (Peering, which Network ties into a knot); what comes back is checked (Proofs). A
-- document carries evidence and a valuation (Engine) that the caller may see (Access) to another node,
-- which checks it, imports it, and values what it says by whether it trusts the signer (Documents).
--
-- Bounds: an amount has nine decimal places where the code has a double; it is exact, so the error of
-- floating point is not modelled, while every `round` of the code is. The values of an asset stay floats:
-- `Floats` of Value/Engine is any type with the operations that the engine uses. Loops run over the rows
-- of a table or over the paths of an offer, so no fuel is needed. Only `network` has fuel, the number of
-- calls of one node by another; a number above the time to live of a query is enough, and more of it
-- changes nothing.
--
-- Not modelled: HTTP and its schemas, SQLAlchemy beside queries, writes and commits, the clock (an
-- argument `now`), random ids (the next number), the signatures of PyNaCl, the hashes of records, of
-- commitments, of proofs and of documents, the client that reaches a peer, whether there is an asset
-- where an item names one, and the items that match an introduction (parameters); scores (the snapshot
-- of one is an argument where a request is submitted) and the deletion of accounts; registration of
-- agents; mandates and proposals of the assurance agent, and the handlers of agreements (the rest of
-- backend/app/value/routes.py and of backend/app/value/map_routes.py).
pub mod Prelude
pub mod Money
pub mod Bridge
pub mod Introductions
pub mod Agents
pub mod Accounts
pub mod Value
pub mod Tests
