-- ===== src/Lib.antt =====
-- Rovaulta: the deterministic evaluation of a robot's behavior against a confidential safety
-- envelope, and the records and checks that lead from an evaluation to a single authorized
-- release.
--
-- The parts and the files that model them:
--
-- Errors.antt: the exceptions of packages/domain/src/errors.ts,
-- packages/chain-client/src/errors.ts, apps/api/src/agent/types.ts and
-- apps/api/src/application/errors.ts, as codes without their texts, and the computations that may
-- throw one.
--
-- Domain.antt and the files under Domain/: packages/domain/src. Value: the values that the parsers
-- inspect, and the checks on plain data objects (schemas.ts). Identifiers, Timestamps: the parsers
-- of texts (identifiers.ts, digest-values.ts, schemas.ts). Records: the records of the protocol,
-- each also as the plain object that is serialized. Schemas and ReleaseSchemas: the record parsers
-- (schemas.ts). Canonical: the canonical JSON serializer (canonical.ts). Digests: the framed
-- digests (digests.ts). Bindings: the checks that records belong together (bindings.ts).
--
-- Simulation.antt and the files under Simulation/: packages/simulation-core/src. Model, Parse,
-- Envelope, Traces: the data and the parsers of model.ts. Geometry, Rules, Evaluator:
-- evaluator.ts, from the closed intersection tests to evaluateSimulation. Scenarios: the generator
-- of scenarios.ts. Values: the records as plain objects.
--
-- Chain.antt and the files under Chain/: packages/chain-client/src. Transport: the form of a
-- clearance in the registry (transport.ts). Registry: the reader over an RPC client and the test
-- of eligibility (registry.ts). TypedData: the message that is signed, and its signature
-- (eip712.ts). Numbers: the texts of bigints.
--
-- Ledger.antt and the files under Ledger/: packages/ledger-gate/src. Context: what the guarded
-- context takes as resolved (clear-signing-context.ts); Context/Exact says it without the tests.
-- StrictAction: the signing action (strict-action.ts), a state machine over the deliveries of the
-- device and the calls on the context, in any order; Deliveries and Contexts: the recorded steps
-- and the state of the context against the deliveries and the calls. Errors: errors.ts. A recovery
-- identifier is a natural number.
--
-- Agent.antt and the files under Agent/: apps/api/src/agent. Tools: the arguments of the model's
-- tool calls (tools.ts). Catalog: the entries of the catalog and the two ways to find one, by a
-- public request and by references (catalog.ts).
--
-- Application.antt and the files under Application/: apps/api/src/application. Clearance: the
-- clearance that is created from a stored evaluation (clearance.ts).
--
-- Release.antt and the files under Release/: apps/api/src/release. NonceStore: the table of
-- nonce-store.ts, each operation as a function from the rows to an outcome and the rows that it
-- leaves. Signers: the policy of authorized signers (signer-policy.ts). Service, Operations,
-- Status: the release service (release-service.ts); prepare and consume are a computation that
-- reads and then one call on the store, whose rows they pass on. A call of consume is given the
-- rows once: its SELECT and its UPDATE see the same rows, and calls that come between the two are
-- sequences of calls on the store (NonceStore). The block number of a stored request is the
-- decimal text that the service wrote; the throw of BigInt on another text is left out. The bytes
-- of a nonce are an argument, of any number.
--
-- How they interact: the evaluator parses its input with the parsers of Domain and Simulation,
-- checks the bindings, generates the scenarios of the envelope and runs every rule over every step
-- of each trace; its result record is parsed and bound again before it is reported. The release
-- service makes an intent from a clearance that the registry reader has found eligible, binds it
-- to the clearance's digest and stores it under a fresh nonce; when it gets a signature, it
-- rebuilds the message, checks the signer, asks the registry again, and consumes the nonce.
--
-- Numbers: natural numbers are unbounded and every bound of the source is written out; coordinates
-- are signed integers of absolute value at most 10^7, whose products stay in the safe range of a
-- double. The 32-bit generator writes its wrap-around as a remainder by 2^32. Texts are lists of
-- UTF-16 code units. The serializer runs on 65 levels, one more than the depth at which the source
-- throws, and counts nodes as the source does; the decimal digits of a safe integer need at most
-- 16 steps, and those of a bigint at most as many steps as the number
-- (Chain/Numbers/Decimal.antt).
--
-- Parameters: SHA-256 and the test for Unicode normalization (Domain/Digests.antt, Platform); the
-- functions of viem (Chain/Transport.antt, Encoding, and Chain/TypedData.antt, Signing); the calls
-- of the RPC client (Chain/Registry.antt, RpcClient); JSON.parse and toLowerCase
-- (Release/Service.antt, Runtime, and arguments of Ledger/); trim, the replacement of white space
-- and toLowerCase (Agent/Catalog.antt, TextRuntime); what the vendor library of the device
-- delivers; the registry's address, the random bytes of a nonce, and whether the database runs a
-- statement. No property assumes a law of these.
--
-- Not modelled: the parser of the deployment artifact, the run of the agent, the store of the
-- application, the server, the clients of external services, the transport and the browser adapter
-- of the device, the web application and the contracts; of the domain package, the build integrity
-- evidence and its digest. They are partly input and output, and partly rest on libraries that are
-- not in the repository.
pub mod Prelude
pub mod Errors
pub mod Domain
pub mod Simulation
pub mod Chain
pub mod Ledger
pub mod Agent
pub mod Application
pub mod Release
pub mod Tests
