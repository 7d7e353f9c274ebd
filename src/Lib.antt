-- ===== src/Lib.antt =====
-- Mnemosia keeps an agent's memories as sealed records on a storage network. A record is packed
-- with others into an object batch, the objects sit on slabs that are billed whole, and the vault
-- keeps a catalog of where each record is, a local database of the slabs it pays for, and a
-- reclamation that deletes dead objects and unpins slabs that hold nothing live.
--
-- The parts and their files:
--   Prelude       lists, sets and maps over native numbers, and `Exec`: a Go method that changes a
--                 state and may return an error, with what it leaves on either way.
--   Sia/Walk      sia/objects.go, `WalkObjectsStats`: pages of object events to the live objects.
--   Sia/Upload    sia/upload.go and sia/pin.go: `UploadPacked`, `Batch.Slabs`, the pinning calls.
--   Sia/Reader, Sia/Envelope and Sia/Location   sia/envelope.go and sia/location.go: the cached
--                 bytes of an object's location, split into its own part and what slabs share.
--   Sia/Names     slab ids, object references and sia/account.go's `Account`.
--   Store         store/store.go, `PutBatch`: blobs to written and pinned objects.
--   Local/Slabs   local/slabs.go: the ledger of slabs, one function for each SQL statement on it.
--   Service       the calls of the indexer, of the database and of a caller's callback, each a step
--                 that an environment answers; the answer may depend on all calls before it.
--   Reclaim/Plan  store/reclaim/reclaim.go: `Live.Check` and `planSweep`.
--   Reclaim/Sweep and Reclaim/Orphans   store/reclaim/reclaim.go: `Track`, `Adopt`, `Unpin`,
--                 `Sweep`, `Orphans`, `Unledgered`, `ReleaseOrphans`, `DropUnreadable`.
--   Reclaim/Repack  store/reclaim/repack.go: `Repack`, `ownsAll` and `Watermark`.
--   Manifest      manifest/: the catalog (Manifest/Catalog), the lines of its files
--                 (Manifest/Lines) and the files with the calls on them (Manifest/Log).
--   Local/Queue   local/queue.go: the queue of records that wait, as Local/Slabs is for the ledger.
--   Bytes         numbers as bytes of a fixed width and as varints, as Go's encoding/binary has them.
--   Seal/Frame    seal/frame.go: the frame of a sealed record, and the walk over a blob of them.
--   Record        record/kind.go, message.go, chunk.go and session.go: kinds, messages, the chunks of
--                 a transcript and how they are split, and the head of a conversation.
--   Local/Sessions and Local/Tags   local/sessions.go: the table of heads; `NormalizeTags`.
--   Vault         vault/session.go: `SaveSession`, `ForgetSession` and a head's edges. Vault/Desk has
--                 the tables and the calls that they make, Vault/Request what a request changes, and
--                 Vault/Session/Load is `transcript` of vault/session_load.go.
--   Index         index/persist.go: Index/Entry has the bytes of a vector and the reading of a file,
--                 Index/Store the base, the delta and `Append`, `Hydrate` and `Compact`. index/index.go:
--                 Index/Live is the matrix in memory with `Add` and `Has`. index/search.go: Index/Search
--                 is `Search`, over Index/Heap, the heap of Go's container/heap. Its loops
--                 run on fuel: from place j up there are j + 1 rounds, each of which lowers j, and
--                 down below n there are n + 1, each of which goes to a later place.
--   Vault/Rebuild vault/rebuild.go: the heads of conversations from their chunks (`RebuildSessions`).
--   Record/Memory and Record/Id   record/memory.go with `Memory.Validate`; `ParseID`.
--   Recall        recall/: Recall/Fuse makes two rankings one, Recall/Filter is the boost, Recall/Rank
--                 is `rank`, and Recall/Pipeline is `Run`; floats are a parameter.
--   Packer        store/packer/packer.go: `New`, `Add` and `flush`. Packer/Cadence is policy.go: when
--                 a queue is flushed. Packer/Timer is timer.go: the ticker of an open packer.
--
-- How they interact: `Sweep` reads the ledger (Local/Slabs), asks the indexer for a walk
-- (Sia/Walk), decides (Reclaim/Plan) and then deletes and unpins through Service. `Repack` reads
-- its records, writes them with `PutBatch` (Store over Sia/Upload), tracks the new slabs in the
-- ledger, hands the new locations to its caller, and only then deletes and unpins. The packer
-- claims the queue's rows, writes them with `PutBatch`, tells its caller, and then drops them. The
-- catalog stands alone: its files are bytes that an arbitrary file system keeps. `SaveSession` splits
-- the messages (Record/Chunk), frames each chunk (Seal/Frame), queues it with the packer's `Add`, and
-- then writes the head at the version that it read (Local/Sessions).
-- `Search` (Index/Search) reads the rows that `Add` wrote (Index/Live), and its matches are what
-- Recall/Fuse merges with the words' ranking and Recall/Rank orders. The ticker of Packer/Timer calls
-- the packer's `flush`.
--
-- How the code is read. Numbers are native naturals; a signed field that may be negative is an
-- integer, and where the code's unsigned arithmetic can wrap, the remainder by 2^64 is written out.
-- A record id is 16 bytes, kept as one number. Go's sets and maps are lists whose order is that of
-- insertion, so that a Go loop over a map, whose order is free, is modelled in one order. Locks are
-- left out: an operation that holds one is a single step. Recursion is on a list, but for the walk
-- over a blob of frames, whose fuel is the blob's length, as a frame takes a byte at least; for a
-- varint, which is read in ten rounds, the most that one has; and for the loops of the heap, above.
--
-- Parameters: the environments `Env`, `FileSystem` and `System` answer every call, errors and, for a write
-- to a file, a cut included. JSON, base64 and the sealer are the record `Codec` of Manifest/Lines;
-- `RoundTrip` states what is relied on of them. `Sealer` of Index/Entry is the index's own, with
-- `IsSound`. The watermark's comparison of floats is a
-- parameter, and so are the scores' arithmetic and order in `Scores` of Index/Search, and the most
-- matches that a slice may be made for there. `OneSlab` of Reclaim/Repack/Release is what `slabOf` says
-- of a packed upload, that an object sits in one slab. The record `Vault` of Vault/Desk has the trimming of texts, JSON, the hash, the cipher
-- and the embedding model; `RoundTrip` of Vault/Session/Save/Appends is what is relied on of its
-- JSON. The digest of a slab and the name made of it are parameters of Sia/Envelope.
--
-- Not modelled: keys/, embed/, the rest of vault/, of
-- record/ the spans and tool exchanges, the ciphers of seal/, the other tables of
-- local/, mcp/, cmd/ and demo/; of sia/ the connection, the approval, the calls over a location
-- and the concurrent requests; of manifest/ the opening and closing of
-- the files. Durations in reports and the texts of errors are left out.
pub mod Prelude
pub mod Bytes
pub mod Record
pub mod Seal
pub mod Sia
pub mod Local
pub mod Service
pub mod Store
pub mod Reclaim
pub mod Manifest
pub mod Packer
pub mod Vault
pub mod Index
pub mod Recall
