-- ===== src/Lib.antt =====
-- Verification library of the oyster monorepo: models of the Rust programs of the repository, and
-- theorems about them.
--
-- The parts and their files.
-- Base: names of the libraries, Boolean tests, lists, signed integers and machine words.
-- Chain: the Ethereum log as both programs read it, and the record `Codec` of the functions of
--   alloy and ethp that they read it with. Those functions are not in this repository, so they are a
--   parameter of all that uses them.
-- Indexer (contracts/indexer/src): `Indexer/Table` and `Indexer/Db` are the tables of schema.rs and
--   the migrations, with the SQL statements that the handlers execute; `Indexer/Providers`,
--   `Indexer/Jobs` and `Indexer/Locks` are the handlers of handlers/*.rs, `Indexer/Dispatch` is
--   `handle_log`, and `Indexer/EventLoop` is `event_loop` and `start_from` of lib.rs. A handler is a
--   function from the database to an outcome (a value, an error or a panic) and a database; what a
--   failed handler wrote stays until the event loop's transaction rolls it back. `Indexer/Message` and
--   `Indexer/Parse` specify the handlers in two stages, and `Indexer/Parsing` proves them equal to
--   that. The other files of the folder are the theorems; `Indexer/Tests` runs the code.
-- Market (operator/control-plane/src/market.rs): one task per job follows the job's logs and launches
--   and terminates its instance. `Market/State` is `JobState` with its small methods, `Market/Flow`
--   the early returns and the panics of `process_log`, `Market/Opened` its JobOpened branch with the
--   address lists and the rates, `Market/Logs` the other branches, `Market/Infra` the heartbeat and
--   the changes of the infrastructure, and `Market/Machine` `job_manager_once` and `job_manager`.
--   serde_json is the record `Serde` of `Market/Metadata`, and the infrastructure the record
--   `InfraProvider`, as in the source, of which nothing is assumed. `tokio::select!` is
--   an environment that chooses any branch whose guard holds and whose sleep is over, so every order
--   of logs and timers is covered. A `Duration` and an `Instant` are nanoseconds. The operators of
--   U256 wrap around, those named saturating stop at the ends. `Market/Funds`, `Market/Scheduling`,
--   `Market/Termination` and `Market/Supervision` are the theorems; `Market/Tests` runs the code.
-- RawProxy (networking/raw-proxy/src): `RawProxy/Backoff` is `run_with_backoff` of lib.rs;
--   `RawProxy/Header` and `RawProxy/Outgoing` are `handle_conn` of vsock_to_ip_raw_outgoing.rs, the
--   checks on a packet and the loop that reads, checks and sends. The buffer is a function of the
--   index, and `&` with a mask of ones and then zeros is a remainder taken off. The interface's
--   address and `from_ne_bytes` are parameters. `Outgoing/Bytes` is about the buffer,
--   `Outgoing/Turns` about one turn, and `Outgoing/Frames` has the theorems.
--   `RawProxy/Queue` is `handle_conn` of ip_to_vsock_raw_outgoing.rs and ip_to_vsock_raw_incoming.rs, over
--   what the queue and the connection answer. `RawProxy/Tests` runs the code.
-- Guest (attestation/verifier-risczero/methods/guest/src/main.rs): `Guest/Program` is `main`, in the
--   order of the source, `Guest/Fields` the parts of the document that it reads, `Guest/Chain` the
--   certificates, and `Guest/Reader` the indices, ranges and assertions, where `none` is a panic. What
--   it commits is added to the journal. x509_cert, p384 and sha2 are the record `Crypto` of
--   `Guest/Crypto`. `Guest/Links`, `Guest/Trust` and `Guest/Soundness` say what a journal means and
--   prove it; `Guest/Tests` runs the code.
-- Attestation (sdks/rs/src/attestation.rs): `Attestation/Document` parses a document, and
--   `Attestation/Verify` checks its certificates, its signature, its registers and its age.
--   serde_cbor, aws_nitro_enclaves_cose and openssl are the record `Library` of
--   `Attestation/Library`; the clock and the root certificate are arguments. A usize has 64 bits.
--   `Attestation/Soundness` is the theorem; `Attestation/Tests` runs the code over `Samples`.
-- Verifier (attestation/verifier/src/handler.rs): `Verifier/Handler` is the two requests, with the
--   verification of `Attestation` and the digest that is signed; keccak256, hex and secp256k1 are the
--   record `VerifierLibrary`. `Verifier/Digest` has the digest of EIP-712, `Verifier/Signing` compares
--   the two ways a document is decoded, and `Verifier/Attested` is the theorem.
-- Scallop (sdks/rs/src/scallop.rs): `Scallop/Stream` is `ScallopStream` with `poll_read`, and
--   `Scallop/Write` its `poll_flush`, `poll_write` and `poll_shutdown`; `Scallop/Peer` has `noise_read`,
--   `noise_write` and the checks of the handshakes, `Scallop/Handshake` the client's and the server's.
--   The base stream, the noise protocol of snow, the store and the auther are the records `AsyncBase`,
--   `Noiser` and `HandshakeLibrary`; `Scallop/Laws` states what the stream relies on in them: a base is a
--   pipe each way, and what one state of the noise protocol writes its peer reads in order. The loop
--   of `poll_read` has 3 turns of fuel, one for each mode, and the loop on the pending bytes as many as
--   there are of them; `Scallop/Delivery` shows that it never stops for want of fuel. The loop of
--   `poll_flush` has a turn more than bytes queued, which is enough where the base always takes one
--   (`Scallop/Ending`); `Scallop/Waking` is about polls that are pending. `Scallop/Reading`, `Filling` and `Delivery` follow what is read, `Writing` and
--   `Accepting` what is written, `Duplex` and `Counterflow` show that neither disturbs the other, and
--   `Session` puts two streams together; `Trust` and `Limits` are about the handshakes. `Tests` and
--   `Runs` run the code over the base and the protocol of `Plain`.
-- Executor (serverless/executor/src): `Executor/State` and `Executor/SendError` are utils.rs,
--   `Executor/Sender` is `send_execution_output` and `Executor/Resend` a turn of
--   `resend_pending_transaction` of event_handler.rs; `Executor/Logs` and `Executor/Events` are
--   `handle_event_logs` with `handle_timeout` of timeout_handler.rs; `Executor/Cgroups` is cgroups.rs
--   with the jobs that hold a cgroup, `Executor/Node` node_handler.rs, `Executor/Code`
--   `create_code_file` of workerd.rs, and `Executor/Jobs` job_handler.rs.
--   The listener hands a job to `handle_job` and `handle_timeout`, and
--   they hand their messages to the sender, which queues its transactions for the resender. The
--   answers of the RPC, the instants of the clock and, for the sender, what other tasks do in its awaits
--   are arguments, one for each turn of a loop; a run
--   that is given no more of them is `waiting`. The decoder of the ABI is the record `Abi`, and
--   keccak256, the encoder and the key are the record `Signer`. U256 is that of ethers, whose
--   operators panic on an overflow; the seconds of a deadline wrap around as in a release build.
--   `Executor/Queued`, `Executor/Sending`, `Executor/Resending`, `Executor/Coverage`, `Executor/Listening`,
--   `Executor/Requests`, `Executor/CodeFiles` and `Executor/Answers` are the theorems; `Executor/Tests` and
--   `Executor/NodeTests` run the code.
--
-- Bounds. The loops over logs, rounds, wakes, answers and connections recur on the list that they run
-- through, so no fuel is used, but for `handle_conn` of the raw proxy: each of its turns reads at
-- least four bytes, and any fuel above the number of bytes that come is enough. The u64 and i64
-- values of the event loop have their wrap-around written out.
--
-- Not modelled: the order of rows and the server side of Postgres but for keys and row counts, the
-- driver's conversion of a time to a TIMESTAMP column (times are kept as seconds), tracing, sleeping,
-- the RPC client, the calls of the executor's contract as they are encoded (`generate_txn`), its files
-- and processes, the overflow of an `Instant`, and the parts of the repository that no file above names.
pub mod Base
pub mod Chain
pub mod Indexer
pub mod Market
pub mod RawProxy
pub mod Scallop
pub mod Verifier
pub mod Attestation
pub mod Guest
pub mod Executor
