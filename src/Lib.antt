-- ===== src/Lib.antt =====
-- flob is a content-addressable blob store: pools of namespaced stores that share the bytes of equal
-- content, upload stages that resume, blobs that are read while they are written, an S3 backend with
-- its reclaiming, an HTTP front end with its client, and an authorization policy. This library models
-- the logic that these parts have in common, the in-memory pool and the S3 store.
--
-- The parts, and where they are modelled:
--  - Prelude: the shared names, lists and texts measured by native numbers, signed 64-bit quantities.
--    A text is the list of its bytes.
--  - Errors: error.go. An error stands for the sentinel that errors.Is finds in it.
--  - Hashing: digest.go, and as a parameter what it takes from the digest library: a record of
--    operations, and the documented laws of streaming and of checkpoints as named hypotheses.
--  - Meta: Meta of store.go and Labels of labels.go; what a call observes (context, clock) and what a
--    reader yields. Labels are entries in key order; a nil slice of values is not told from an empty one.
--  - Namespace: namespace.go, and the strict unpadded base64 that it uses (Namespace/Base64).
--  - Stage: stageRecord, StageConfig and the checks of store.go.
--  - Mem: mem.go. Mem/State has the pool: blobs on a heap with their reference counts, the digest map,
--    the entries of all stores and the stages. Mem/Store has Use, Add, Open, Label, Erase and Link,
--    Mem/Staging, Mem/Settling and Mem/Pruning have the stages. What a pool promises is `view`: what
--    each store shows of each digest. Mem/Invariant and Mem/Keeping are about valid pools, Mem/Views,
--    Mem/Adds and Mem/Effects about the view after each operation, and
--    Mem/Lifecycle, Mem/Transitions, Mem/Uploads, Mem/Checkpoints and Mem/Pruned are about stages.
--  - Fill: fill.go and MemStore.Fill of mem.go: the tracker, its writer and its readers.
--  - Tap: blobTap of cache.go, which copies a read of the origin into the cache; the source and the pipe
--    are arguments.
--  - Info: the loaders of info.go by what they answer.
--  - Auth: Policy.Authorize of auth/policy.go; the verifier of tokens is a parameter of a provider.
--  - Http: http.go and the gate of http_authorizer.go. Http/Handler is ServeHTTP over any backend, a
--    record of the operations of Stores; Http/Paths parsePath; Http/Client what HttpStore sends and what
--    it makes of a response. The reader that Open of a client or of an S3 store returns is Http/Ranges
--    (its state), Http/Opening (openResponse) and Http/Ranging (Read, Seek, Close); Http/Accepted,
--    Http/Pieces and Http/Seeking are about it. The transport is a parameter: a fetch answers a
--    response, and how much of a body comes at a time is an argument. What net/http makes of the URL
--    of a request is a parameter as well. A backend's reads may change its state.
--  - S3: s3.go, sigv4.go and reclaim.go. S3/Service has what the code asks of the service, as a
--    record of operations on a state of the service's own, and what the S3 API documents of them, as
--    records of laws; every answer that these laws leave open, errors included, may come. A service
--    may ignore the checksum of a PUT (`CheckingLaws`): S3/Trusting says when a stream may be trusted,
--    which the probe finds out. S3/Marked reads the metadata of a reference back. S3/Keys and
--    S3/Markers have the keys and the metadata of references, S3/Requests and S3/Probe the requests
--    and the probe of checksums, S3/Adding Add, S3/Store the other operations of a store, S3/Listing
--    listRefs, S3/Walking Walk and Namespaces, S3/Copying the copies and S3/Reclaiming the sweeps of
--    Reclaim. S3/Encoding, S3/Signing and S3/Presigning are the signer, with the functions of crypto
--    and time as a parameter. S3/Sound says what a sound bucket is; the other files show, for the
--    operation each is named for, that it stays so.
--  - Wrappers: the wrappers of util.go over any backend, and ExitCode of cmd/flob/cmd/exit.go.
--  - Examples: runs and instances of the theorems on small pools; Examples/Toy is a hash that meets
--    the laws; Examples/Bucket, Examples/Shelf and Examples/Listings are a hash
--    and an S3 service that meet theirs.
--
-- Bounds and fuel: a reference count is a 64-bit word whose arithmetic wraps; a pool has room if each
-- digest has fewer than 2^64 - 1 references, which no memory exceeds. The loop of publish runs on fuel;
-- on a valid pool one round is enough, which the results on Add and Commit show. Sizes and offsets are
-- integers with a sign; no operation modelled here adds near their limits.
--
-- A stage's lock and a blob's lock are held for the whole of what they guard, so an operation on a pool
-- is one step here; the interleavings inside Add and Erase are not modelled. So is an operation on a
-- fill, but for its write, which takes the lock twice: its second half is an operation of its own too
-- (`records` of Fill/Release), between which and the first half others may come. A stage that another
-- operation holds, which PruneStages passes over, does not arise. Where Go would panic, the model says
-- so (`panics` of Fill).
--
-- A loop of s3.go over the pages of a listing ends only if the service does not list for ever; it runs
-- on a number of pages, and a listing that is longer is an outcome of its own (`endless` of S3/Listing),
-- about which the results on Reclaim speak as well. The loop of copyParts runs for as many rounds as the
-- object has bytes, which is enough where a part is not empty.
--
-- Not modelled: the file system store (os.go, nlink.go, nlink_linux.go, lock.go) with its sweep; the
-- stages of the S3 store; the rest of
-- the read-through cache (cache.go); the failover between HTTP origins (http_client.go, http_auth.go);
-- the OIDC verifier (auth/oidc.go), the lookup of capabilities by type, and the command with its
-- configuration (cmd), which are input and output or glue around the parts above. The operations of
-- two S3 stores at a time, whose requests interleave, are not modelled: an operation here is done when
-- the next one starts.
pub mod Prelude
pub mod Errors
pub mod Hashing
pub mod Meta
pub mod Namespace
pub mod Stage
pub mod Auth
pub mod Info
pub mod Http
pub mod Wrappers
mod Examples
pub mod Mem
pub mod Fill
pub mod Tap
pub mod S3
