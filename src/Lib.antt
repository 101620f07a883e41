-- ===== src/Lib.antt =====
-- ZenoFS, a network file store: files are cut into slices, a slice is compressed, encrypted and
-- stored as a chunk of a stripe in a storage pool, and a file is a chain of versions whose rows map
-- slice numbers to chunks. Protocol servers (SFTP, SMB, WebDAV, HTTP) share one file system layer,
-- internal/vfs, which stands on the storage pool, internal/pool, and a database, internal/db.
--
-- Where to find what:
--   Common              shared names, lists and tables over native numbers, errors, signs
--   Db                  rows of internal/db/models.go that files and pool share
--   Vfs/Handle/State    fileHandle of internal/vfs/file.go, the tables it writes, and the interface
--                       Backend: AddChunks, ReadChunks, RebuildByChunks, encodeSlice, decodeSlice
--   Vfs/Handle/Slices   slicePlain, readSlice, writeIntoSlice, flushActive, putSlice, dropSlice
--   Vfs/Handle/Read     ReadAt, Read, Seek, size (internal/vfs/file.go)
--   Vfs/Handle/Write    checkQuota, WriteAt, Write (internal/vfs/file_write.go), usedBytes (fs.go)
--   Vfs/Handle/Truncate truncateTo and trimSlice (internal/vfs/file_write.go)
--   Vfs/Handle/Commit   loadSnapshot, beginWrite, Sync, Close, discardNewVersion
--   Vfs/Handle/Reliable the laws of Backend that the proofs use, while the pool is online and the codec
--                       can be used: what was stored reads back, a slice fits a chunk once encoded
--   Vfs/Handle/Coded    Backend and its laws from encodeSlice and decodeSlice as Vfs/Crypto has them,
--                       over a pool that keeps its chunks (ChunkStore with the laws IsKeeping)
--   Vfs/Handle/PoolStore  ChunkStore made of AddChunks, ReadChunks and RebuildByChunks; PoolReads is
--                       about its reads
--   Vfs/Handle/View     a file as its bytes, and the invariant of its slices; the other modules of
--                       Vfs/Handle hold the proofs, Examples files the concrete runs
--   Vfs/Path            internal/vfs/path.go
--   Vfs/Tree/State      the tables of the tree and one mounted share (ShareFS of internal/vfs/fs.go)
--   Vfs/Tree/Lookup     lookup, pathOf
--   Vfs/Tree/Info       buildInfo, stat, ReadDir, Readlink; Vfs/Tree/Usage is StatFS and usage.go
--   Vfs/Tree/Change     Mkdir, Remove, Rename, Symlink (internal/vfs/fs_write.go)
--   Vfs/Tree/Open       Open up to the row of the file, createInode (internal/vfs/file.go)
--   Vfs/Tree/Recycle    ListDeleted, Restore (recycle.go), ListVersions, RestoreVersion, ListHistory
--                       (history.go)
--   Vfs/Tree/Steps      the calls of all clients as a step relation; Walk, Tidy, Keeps, Moves,
--                       Restores, Reachable, Created, Dangling and UsageLaws hold the proofs
--   Vfs/Crypto          internal/vfs/crypto.go, sliceSize (fs.go) and internal/hash/hash.go
--   Vfs/Root            internal/vfs/root.go: grants, cached mounts and session keys; Root/Routes the
--                       operations on paths of the root
--   Vfs/Retention       trimVersions (internal/vfs/retention.go) and pluckChunkIds (recycle.go)
--   Vfs/Purge           purgeInode, collectSubtree, pluckVersionIds (internal/vfs/recycle.go)
--   Pool/Tables         rows of the pool; Pool/Release is ReleaseChunks (internal/pool/release.go)
--   Pool/Keyring        internal/pool/keyring.go
--   Pool/Orphans        internal/pool/gc.go
--   Pool/Disks          pools, disks and handlers (internal/db/models.go, internal/pool/handler.go)
--   Pool/Stripes        the shards of one stripe: Parity is computeStripe (internal/pool/parity.go),
--                       Rebuild is rebuildStripeJob (internal/pool/rebuild.go); Local keeps files by
--                       disk and path
--   Pool/Worker         the queue of stripes and the rounds of its worker: ParityRound is
--                       calculateStripeParity, RebuildRound is rebuildStripe, Recover brings disks and
--                       pools back, Enqueue is RebuildPool and RebuildByChunks
--   Pool/Write          internal/pool/chunk.go: slots for new chunks, Write/Queue is Flush, Write/Files
--                       the files, Write/Calls is AddChunks and WriteChunks
--   Pool/Cache          internal/pool/cache.go; Cache/Reads is ReadChunks (internal/pool/chunk.go)
--
-- The root hands an operation to the share that a path names; a share's operations work on the tables
-- of inodes, versions and history; opening a file ends in the open file, which stores its slices,
-- encoded, in the pool; purging and trimming release the chunks of the pool.
--
-- How the code is modelled: an operation takes the whole state (open file, tables, pool) and returns
-- its result with the state it leaves, on errors of the pool and of the codec too. An int64 argument
-- that may be negative is an integer with its sign; sizes, offsets and quotas are natural numbers,
-- since the code rejects negative ones first. Where WriteAt, checkQuota and truncateTo add or shift
-- int64 values the wrap is written out, and what is stated of a write or a cut has a bound of 2^63 on
-- its end; the limit of versions to keep is a natural number too, 0 for one that is not positive.
-- Tables and Go maps are lists of rows; the order of a Go map is never used. A slice that the code
-- holds as nil is the empty list. The loops of ReadAt, WriteAt and ReleaseChunks take fuel: each
-- round handles at least one byte or one id, so the number of bytes or ids is enough. The loop of
-- collectSubtree takes two rounds more than the number of inodes that it accepts. Chains of links and
-- of parents are followed 16 and 256 times, as in the code.
-- An operation on the tree runs alone and in one piece: it returns the new tables, or an error that
-- leaves them as they were. Ids of rows count up. Bits of a file mode that are apart are added. A key
-- is handed to the open as whether one is there; the keys of the process lie in buffers with addresses,
-- since Set copies and Delete zeroes them in place. Package calls of the codec are the parameters
-- Primitives, with the laws IsSound; Reed-Solomon coding is the parameter Coder, with the laws Recovers
-- and NeedsData; the files of the disks are a state that handlers read and write, with the laws IsFiles.
-- An open file sees the pool one chunk at a time, as ChunkStore; Vfs/Handle/PoolStore makes it of
-- AddChunks, ReadChunks and RebuildByChunks, and PoolExamples runs it. The laws IsKeeping are what the
-- proofs of the open file assume of an online pool; they are not proved of PoolStore for every state.
-- New ids, random paths and the shuffle of the disks are the parameter Fresh. What the pool does in
-- parallel for the chunks of a stripe or of a call is done one after the other, since each has a file
-- of its own. A table of unique names and grants is read by its first match.
--
-- Not modelled: failures of the database (every query is taken to answer, and a transaction is all or
-- nothing) but for the outcome of a round of the worker, two calls interleaved within one operation,
-- logging, and the parts listed nowhere above: Copy, SetAttr and truncatePath, Purge, PurgeAll and
-- PurgeShare around purgeInode, the sweeps of the retention worker, adding and swapping disks, removal
-- of cached files, timers, the protocol servers, authentication and the web page. In
-- enqueueParityRecompute the batches of its query are taken as one, which is exact up to 500 stripes.
pub mod Common
pub mod Db
pub mod Pool
pub mod Vfs
