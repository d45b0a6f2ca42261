-- ===== src/Lib.antt =====
-- Formal model of the TypeScript SDK, auditor, ceremony and deploy tools of the NEAR shielded pool.
--
-- The program. Notes (an amount, an owner, an auditor and a blinding) are committed with Poseidon
-- and stored as leaves of a Merkle tree of depth 20. A wallet finds its notes by opening sealed
-- boxes, selects inputs and builds deposits, transfers and withdrawals; a prover makes the Groth16
-- proof; envelopes turn a built transaction into a NEAR function call; a relayer checks a
-- withdrawal and submits it. A pool client follows the contract's logs with a copy of the tree,
-- and an auditor indexes the disclosures that are sealed for its key. The ceremony's manifest
-- records the contributions to the proving keys, and the deploy tool assembles the arguments of
-- the pool's `new` from those keys.
--
-- Prelude, Js: shared names, lists, exceptions as values (`Result`, a constructor for every `throw`),
--   bigints as integers with a sign, strings as lists of UTF-16 code units, `BigInt(s)`,
--   `toString`, `padStart`, `parseInt(s, 16)`, `JSON.stringify` and `JSON.parse` (Json, Json/Parse),
--   and what property access does to a parsed value (Json/Access).
-- Core: sdk/packages/core/src. Field (field.ts), Poseidon (poseidon.ts), HashBytes (hash_bytes.ts,
--   keccak_to_field.ts), Note (note.ts), Encrypt with `TextEncoder` and
--   `TextDecoder`, and Disclosure (encrypt.ts), Scanner (scanner.ts).
-- Client: sdk/packages/client/src. MerkleTree (merkle-tree.ts), Events (events.ts), PoolClient
--   (pool-client.ts), Callers (near-caller.ts, near-submitter.ts and demo/src/workspaces-caller.ts).
-- Auditor: sdk/packages/auditor/src/indexer.ts.
-- Ceremony: ceremony/scripts/manifest.mjs.
-- Demo: Prereqs (demo/src/prereqs.ts).
-- Relayer: sdk/packages/relayer/src/service.ts.
-- Sdk: sdk/packages/sdk/src. Wallet, Deposit, Transfer, Withdraw (wallet.ts), Envelopes and
--   Transaction (envelopes.ts), Groth16 (groth16-adapter.ts) with its byte layout in Groth16/Points
--   and Groth16/Slots, Prover (prover.ts, snarkjs-prover.ts).
-- Deploy: deploy/src. Gates (gates.ts, assemble.ts), Config, Sandbox, Run (emit.ts, deploy.ts), Cli.
-- Tests: the theorems at concrete inputs.
--
-- Conventions. A function that may throw returns a `Result`; random bytes, the clock and the
-- prover are arguments. A `Uint8Array` is a list of numbers below 256; leaf indices are natural
-- numbers, in the events of the client integers; amounts are integers, as `bigint` allows negative
-- ones. The two builders of each transaction share their first lines in one function. Fuel:
-- `toString` takes one step more than its number, which its digits never exceed; the chunks of a
-- byte string take a round for each byte at most; `JSON.parse` takes four steps for each code unit
-- and two more, as at most four calls stand between two units that it consumes.
-- Third-party code is a parameter: `Packages` holds Poseidon, Keccak, X25519, HKDF and the cipher,
-- with the laws of a sealed box in `SealLaws`; snarkjs is an argument of the prover; `Node` holds the
-- file system, path resolution, SHA-256, the readiness script and the parsed key and config files;
-- `Chain` is the sandbox of near-workspaces; `NearCaller` is the transport of the pool client; `Host`
-- holds the files of the ceremony. `Doubles` says what floating-point numbers other than integers up
-- to 2 ^ 53 are: their text, their `BigInt` and how they bound a loop. Collisions of Poseidon appear as
-- alternatives of a conclusion, never as hypotheses, and are collisions of the very inputs that the
-- two computations hash (Core/Poseidon).
-- The object of a `Json` value lists its own keys in their order, integer keys in front, as JavaScript
-- keeps them. `JSON.parse` is modelled with the keys in the order of their first occurrence: it does
-- not move an integer key that a foreign text has behind others.
--
-- Not modelled: file access and printing (artifact loaders, console output); the run of the demo
-- and the test fixtures; interleavings of two calls of one client; the Rust contract and the
-- circuits, which are written in other languages.
pub mod Auditor
pub mod Ceremony
pub mod Client
pub mod Core
pub mod Demo
pub mod Deploy
pub mod Js
pub mod Prelude
pub mod Relayer
pub mod Sdk
pub mod Tests
