-- ===== src/Lib.antt =====
-- kubus-node runs on a volunteer's machine: it pins public archive content on a local IPFS node
-- (Kubo), takes uploads of captures from paired phones, turns them into spatial data with a worker,
-- and serves its local API over HTTP and over a WebRTC data channel. A call arrives as frames
-- (Frame) on a channel (Channel) that first proves the node's identity (Identity); the dispatcher
-- (Dispatch) admits it with a credential (Pairing) and, where it has an effect, with a key of the
-- client (Idempotency), and calls the part that its route names. Uploads become stored captures
-- (Captures), captures become jobs (Jobs), the results are pinned (Pins), and useful work for others
-- needs a lease (Gate). One process at a time may write the state (RuntimeLease), and its loops keep
-- the node's pins and its standing up to date (Scheduler).
--
-- Which file models which part:
--   Base          the shared vocabulary: Boolean tests, lists by native numbers, a JavaScript map as
--                 its entries in order (Base/Maps), texts as UTF-16 code units (Base/Texts).
--   Json          a JSON value.
--   Frame         src/webrtc/frameCodec.ts: encodeFrame, decodeFrame, Crc32, splitIntoFrames and
--                 ChunkReassembler; the collection of a body in src/webrtc/channelServer.ts
--                 (Frame/Receive). Bytes are numbers, and 32-bit arithmetic is written out.
--   Request       src/localApi/localRequest.ts: a request and a response, whatever carries them.
--   Identity      src/identity/identityProof.ts: the signed message, its creation and verification.
--   Channel       src/webrtc/channelServer.ts: the frames of an answer (Channel/Replies), what a
--                 request reads of its head and body (Channel/Bodies), heads, challenges and their
--                 requests (Channel/Handlers), chunks, cancellation, the close, the timer and the end
--                 of a handler (Channel/Steps). Request objects stand in a heap under serials, since
--                 two of them may have one id; a handler's end is an event with the dispatcher's
--                 outcome.
--   Dispatch      src/localApi/dispatch.ts: the table of routes (Dispatch/Routes), how a route's plan
--                 and a mutation with a key run (Dispatch/Private), the gates of
--                 dispatchLocalRequest (Dispatch/Gates), AdmissionLimiter (Dispatch/Admission) and
--                 exchangePairing (Dispatch/Exchange). A call of another part is a value with its
--                 arguments, carried out by a parameter.
--   Idempotency   src/localApi/idempotencyStore.ts: begin, settle, size, eviction and capacity.
--   Pairing       src/localApi/pairingService.ts: createSession, exchange as its check and its
--                 update, issueRemoteCredential, revoke, authorize; the limiter of attempts
--                 (Pairing/Limiter) and how exchangePairing uses it (Pairing/Attempts).
--   Captures      src/captures/captureStore.ts: paths, writes to a draft and reconcile (Captures),
--                 commit, discard, sweep and delete (Captures/Store); the inspection of
--                 src/captures/capturePackage.ts (Captures/Package).
--   Jobs          src/jobs/jobRuntime.ts: the durable job records, create, insert, cancel, the
--                 patches of run, the recovery of start, the transactions of the runtime with its
--                 map of runs (Jobs/Patches), and the loop of dispatch (Jobs/Dispatch).
--   Cleanup       src/jobs/jobCleanup.ts: own, markWorkerAttempt and release; of
--                 src/compute/providerCleanup.ts own, assertPreparing and request
--                 (Cleanup/Provider), release and releasePin (Cleanup/Deletion).
--   Pins          src/ipfs/managedPins.ts: acquire (Pins), release, releaseUnreferenced, referenced
--                 and reconcile (Pins/Release).
--   Gate          src/participation/networkParticipationGate.ts: the requirements and the decision of
--                 refresh (Gate), recordHeartbeatAccepted and assertUsefulOperation (Gate/Lease).
--   Scheduler     src/scheduler/backoff.ts; runResilientLoop and describeLoopError of
--                 src/scheduler/loops.ts, round by round with the clock, the random factors and the
--                 end of the task as inputs; src/runtime/actionLock.ts.
--   RuntimeLease  src/runtime/runtimeLease.ts: provenStopped, with what the system tells of a pid as
--                 a parameter, and acquireRuntimeLease and release as the steps of any number of
--                 processes on the lease file and on the guard directory (RuntimeLease/Machine).
--
-- State is passed explicitly; a thrown error is a value of an error type, and the state beside it is
-- the one that is left behind. Where calls interleave, a run is a list of steps: each update of the
-- local store (src/state/localStore.ts) is one step, since the store runs them one at a time. Each
-- read of the clock is an argument in milliseconds, and an ISO time is that number. Fresh random
-- values, the answers of the file system, of Kubo, of the worker and of the gate are arguments too.
-- SHA-256, hexadecimal decoding, JSON text and the platform's path functions are parameters, with
-- what the code relies on as hypotheses.
--
-- Loops are structural recursion, on the list that they walk. Three loops have a measure of their
-- own: the drain of a frame splitter and the stream of a body run on fuel, the bytes that are left,
-- which each round makes fewer; the dispatch loop of the jobs runs on any fuel, since it may not end,
-- and answers with nothing when the fuel is used up.
--
-- Not modelled: sockets, signaling and the connections below a data channel (src/webrtc), the HTTP
-- adapter and what the read-only routes collect from the other parts (src/localApi), HTTP clients of
-- Kubo and of the backend (src/ipfs, src/backend), the key file and the attach signature
-- (src/identity), the interface, the command line, the setup and the installer (src/gui, src/cli,
-- src/setup, src/installer), the files and the floating-point conversions of the spatial worker
-- (src/spatial), analytics, logging, and the tasks of the scheduler's loops. In the
-- parts above: the calls of a job to the worker and the import of its outputs, the markers that an
-- upload writes (their age is an argument of the sweep), the whole-package upload, the reading of
-- localCaptureId and frameCount from the metadata of a draft, which holds them as fields, the text of
-- the pairing URI, and the interleaving of a streamed answer with other frames: its frames are sent
-- at once.
pub mod Base
pub mod Json
pub mod Request
pub mod Identity
pub mod Channel
pub mod Dispatch
pub mod Frame
pub mod Idempotency
pub mod Pairing
pub mod Captures
pub mod Jobs
pub mod Cleanup
pub mod Pins
pub mod Gate
pub mod Scheduler
pub mod RuntimeLease
