-- ===== src/Lib.antt =====
-- Ghost Vault: the memory engine, its store and settings, the API in front of it, and the OAuth
-- side of the MCP bridge.
--
-- The server keeps short texts ("chunks") for the users of a vault. internal/core/engine.go is the
-- engine: an ingest turns a request into rows (engine.go, ingest_work.go, chunkbody.go), and a
-- retrieval embeds a query, searches by vector and by text, fuses and ranks both lists
-- (scoring.go), and packs snippets under a limit of chunks and tokens. internal/store/store.go
-- holds the SQL statements. With encryption on, what is stored of a text is sealed with the data
-- key of the caller's session.
--
-- Which file models what:
--   Text, Extern, Outcome, Outcome/Action: strings as lists of code points, what the program takes
--     from the language and from libraries, results, and actions on the store.
--   Core/Scoring: internal/core/scoring.go, RankChunksFusionDetail and RankChunks; Core/Sorting has
--     the exchange sort of it, and sort.Slice as the insertion sort that Go documents no more of
--     than that its result is ordered. Core/Scoring/Fusion, Core/Scoring/Ranking and
--     Core/Scoring/Candidates are about the two.
--   Core/ChunkBody: internal/core/chunkbody.go; Core/Snippet: resolveRetrieveContentMode and
--     buildRetrieveSnippet of internal/core/engine.go; Core/Engine: decryptPayloadString,
--     sourceDocumentPlaintext and payloadToChunkBody of it.
--   Core/Retrieve, Core/Retrieve/Pack, Core/Retrieve/Run: Retrieve, RetrieveWithDebug,
--     boostSessionPreference and GetChunkByID; the other files of Core/Retrieve are about them.
--   Core/Chunking: chunkText, Core/Chunking/Laws and Core/Chunking/Rounds about it. Core/Ingest,
--     Core/Ingest/Persist, Core/Ingest/Run: the rest of ingest_work.go, and IngestWithDebug;
--     Core/Ingest/Rows, Core/Ingest/Stored and Core/Ingest/Again are about the rows that an ingest
--     leaves; Core/Ingest/Written, Core/Ingest/Decoded and Core/Ingest/ReadBack follow one item
--     into its row and back.
--   Store, Store/Tables: the rows and statements of internal/store/store.go; Store/Effects,
--     Store/Unique, Store/Pruning and Store/Deletion are about the statements. Store/Reading has
--     the reads by id, Store/Searching the searches, Store/Searching/Found what they find, and
--     Core/Retrieve/Owned a retrieval over the tables.
--   Config, Config/Tuning/Layers, Config/Tuning/State: the settings of internal/config/tuning.go
--     and tuning_state.go, and the part of patchTuning (internal/api/tuning_handlers.go) that
--     changes them. A map is the list of its entries in the order that a range statement gives.
--     Core/Settings says what the engine may rely on in settings that passed Validate.
--   Auth, Auth/Manager: the session manager of internal/auth/session.go and credential.go, with its
--     maps and the table of session rows as state; Auth/Limits and Auth/Lifetime are about it. A
--     call is one step, so what another caller does in the middle of Touch is not described.
--     Auth/Leases is the view of it as a store of leases, which Auth/Leases/Held and
--     Auth/Leases/Answers compare it to.
--   Crypto: internal/crypto/vault.go, all of it; Crypto/Wrapping is about it. argon2,
--     chacha20poly1305 and the source of random bytes are arguments, whose panics are results.
--   Api: requireVaultAuth, sessionFromRequest and writeAuthProblem of internal/api/handlers.go,
--     over the manager and the tables of action tokens and vaults; Api/Accepted, Api/Access,
--     Api/Refusals and Api/Scopes are about them.
--   Api/Vaults: vaultInit, vaultUnlock, vaultLock and mintActionToken of internal/api/handlers.go;
--     Api/Vaults/Unlocking, Api/Vaults/Minting and Api/Vaults/Racing are about them. Racing has a
--     step relation for requests that are served side by side.
--   Api/Memories: ingest, retrieve, getChunk and deleteChunk of internal/api/handlers.go;
--     Api/Memories/Isolation and Api/Memories/Answers are about them.
--   Mcp/Bearer, Mcp/OAuth, Mcp/Facade: bearer.go, oauth.go and oauth_facade.go of
--     internal/mcpbridge; Mcp/Bearer/Reload, Mcp/OAuth/Settings, Mcp/OAuth/Tokens,
--     Mcp/Facade/Audience and Mcp/Facade/Relay are about them. HTTP calls, net/url, JSON and base64
--     are arguments.
--   Mcp/Bridge: the requests of the bridge's tools (bridge.go); Mcp/Bridge/LetIn puts them before
--     the API's authentication, Mcp/Bridge/Defaults is about the vault that they name, and
--     Mcp/Bridge/Saving has the tool memory_save.
--   Boot: assertEncryptionMode, initAuthMode and readAutoUnlockPassword of cmd/gvsvd/main.go, and
--     `run` up to the session manager; Boot/Purging, Boot/Checked and Boot/Restart are about what
--     a started server holds.
--   Config/Bootstrap: internal/config/config.go; Config/Bootstrap/Durations is about it.
--     strconv.Atoi is an argument. Config has the part of these settings that the engine and the
--     manager read, with durations that are not negative.
--   Tests: the inputs, and the results at them.
--
-- How they interact: a handler finds out who asks (Api), and opens or touches a session (Auth) with
-- a data key that was unwrapped from the vault (Crypto); it hands this key to the engine (Core),
-- which takes the settings in force (Config) and reads and writes rows (Store). The handlers of
-- Api/Vaults make the vault and its sessions, those of Api/Memories put the authentication before
-- the engine. The bridge (Mcp) is a process of its own, a client of the API with a session token.
--
-- Numbers: int and int64 are whole numbers with a sign; the one product that a request controls,
-- limit times multiplier, wraps at 64 bits. Token counts and lengths do not wrap: they are bounded
-- by the sizes of stored texts. float64 is the interface Float64, whose arithmetic no theorem
-- relies on; the order of its numbers is the hypothesis IsOrdered.
--
-- Loops are structural recursion, but for chunkText, whose fuel is the length of the text: each
-- step takes at least one rune, so the fuel does not run out, as Core/Chunking/Rounds shows.
--
-- Failures: `fails n` says whether the n-th statement of a run fails; all theorems hold for every
-- choice of it. A panic of Go is an error of its own.
--
-- Not modelled: the handlers that only write out statistics or health, the middleware, the texts of
-- problems, the clients of OpenAI, the rest of the commands, the dashboard, and what Postgres
-- computes in a search: distances, the text search and the order that an index gives, which are
-- arguments.
mod Prelude
pub mod Text
pub mod Extern
pub mod Outcome
pub mod Crypto
pub mod Auth
pub mod Api
pub mod Boot
pub mod Mcp
pub mod Config
pub mod Store
pub mod Core
mod Tests
