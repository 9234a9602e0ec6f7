-- ===== src/Lib.antt =====
-- AgentPay: deferred micropayments between an agent and a provider, through an escrow.
--
-- The agent locks a deposit in an escrow session on Solana (programs/agentpay/src/lib.rs). For
-- each purchase it signs a claim that carries the cumulative amount it owes. The gateway
-- (gateway/src) checks each claim off chain, keeps the highest one, logs its decisions in a hash
-- chain, and in the end settles that one claim on chain; what is left over is refunded.
--
-- Files:
--
-- Prelude and its children: shared names, Boolean tests, lists, `Result` under do-blocks,
-- integers, u64 and i64 arithmetic, bytes.
--
-- Program: programs/agentpay/src/lib.rs. Types holds its accounts, events and errors; Runtime
-- the parameters that stand for Solana (token accounts and transfers, derived addresses,
-- SHA-256, account creation, Borsh) and the `World`, the state an instruction reads and writes;
-- Message is build_claim_message, Ed25519 is verify_ed25519_claim; Open, Settle (with Receipt)
-- and Refund are the three instructions, each with the constraints of its accounts struct ahead
-- of the handler. Steps makes them a step relation, with whatever others do to token accounts.
-- Outcome inverts the instructions; Accounting, Terms, Closure, Payments, Guards, ReceiptLaws,
-- Consent and Ed25519/Laws hold the theorems; Tests run a session from opening to refund.
--
-- Gateway: gateway/src. Claim is claim.rs, Verify is verify.rs, Settle the Ed25519 instruction
-- of settle.rs and its Transaction the rest (with Decoded), State state.rs (with Rules, Store
-- and Histories), Policy policy.rs (with Rules and Resources), Evidence evidence.rs with
-- append_evidence of db.rs (with Log, Tamper, Merkle, Inclusion), Chain chain.rs (with Layouts
-- and Reconcile), Reason error.rs, Routes routes.rs (Claims, Tracking, Authority, Purchase,
-- Settlement). Parity compares the gateway with the program. Database (with Columns and
-- Sessions) is db.rs over Keyed, a table with a primary key: Rows decodes a session's rows,
-- Represents relates the tables to the map of State, Refines, Admits and Claims take the
-- operations one by one, Histories any run of them, Audit the evidence it leaves, Frozen what is
-- settled, Bounds the values that a column cannot hold. Control holds the rows of control_db.rs,
-- and its children Agents, Providers, Operators and Approvals the queries; Foreign and Isolation
-- keep the tenants apart, Histories, Lifecycle, Tally and Grants follow the approvals. Admin is control.rs
-- (Decisions the approvals, Planner its plan_options, with Affords and Choice). Registry is
-- registry.rs (Merged, Offers), RateLimit is ratelimit.rs (Buckets, Clients), and Auth is
-- auth.rs (Secrets, Admission).
--
-- A Pubkey, a hash or a signature is the number that its bytes encode. Numbers are unbounded
-- where they are only compared, and every checked operation of the source keeps its bound. The
-- in-memory store runs each operation under one lock, so that operations are functions on the
-- map; `Histories`, `buy` and `settle_session` make the interleaving of requests a list of
-- calls. The loop that builds a Merkle tree has the number of leaves as fuel, which is enough
-- since each round halves the level; the loop of a proof and all others are structural.
--
-- SQL is read as it is documented: a query is a function on tables that are lists of rows in the
-- order of insertion, an operation that fails leaves them as they were, since its transaction is
-- dropped, and the row lock makes the operations of a session follow each other.
--
-- The token program is a parameter with the documented laws of SPL Token and Token-2022, where a
-- mint may have a transfer fee. A comparison in a theorem is spelled out with the source's
-- numbers, apart from the test that the code makes.
--
-- The limiter's f64 arithmetic is a parameter without hypotheses, and its theorems hold for any.
--
-- Not modelled: HTTP, JSON, base64, logging and metering, the fetching of catalogues, and RPC,
-- whose answers are parameters of the handlers; SQL beyond the statements of the two stores; the
-- handlers of control.rs other than those of approvals and the planner; configuration; the
-- dashboard's read-only views; the web console and the SDK; messages for people. The v1 program,
-- which the gateway still reads and settles for, appears only through its account layout.
pub mod Prelude
pub mod Program
pub mod Gateway
