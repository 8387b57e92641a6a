-- ===== src/Lib.antt =====
-- The client side of a cloud speech service: speech recognition and text to speech over one
-- connection each. A client hands requests to a sending thread through a queue, a receiving thread
-- turns the responses of the service into results, and the client polls for them. A controller
-- holds the one operation that is under way and those whose end the client has still to hear of.
--
-- The parts and their files:
--   src/common/pending_queue.h, class StreamQueue: Stream.antt, on the nodes of Stream/Nodes. The
--     list, the tags and the index are as in the source, an iterator is an address. Stream/Spec is
--     the abstract queue of streams; Layout, Rep, Keep, Seek and Shrink say how the containers stand
--     for it; Refine, Arg, Erase and Pop take the operations one by one, History puts them together,
--     Protocol is the reader's side and Total the clients'.
--   src/common/pending_queue.h, class PendingQueue: Pending.antt, with Order about its items.
--   src/common/pending_queue.h, class PendingStreamQueue: PendingStream.antt on Stream.antt, Calls
--     about sequences of calls, Signals about waking the caller that waits in poll.
--   src/common/op_ctl.h, class OperationController: OpCtl.antt, with the operations in a store.
--     Timeout is about op_timeout, Invariant, Ends, Cancel and Relaxes about the list of operations.
--   src/codec/rkcodec.cc, class RKOpusEncoder: Opus.antt, with libopus a parameter; Frames,
--     Rounds and Calls are about calls that succeed, Failure about one that does not, Buffer about
--     the bounds of both. The class RKOpusDecoder:
--     Opus/Decoding.
--   src/speech/speech_impl.cc and src/tts/tts_impl.cc, the traces of requests, with add_trace_info
--     of src/common/speech_connection.cc: Trace.antt.
--   src/common/trace-uploader.cc: TraceUploader.antt, with json-c a parameter; Document says
--     what a document holds, Sends what is uploaded.
--   src/common/speech_connection.h and src/common/speech_connection.cc, class SpeechConnection:
--     Connection.antt has the state and the small operations, Auth the address, the signature and
--     the authorization, Callbacks what the websocket library calls, Threads the rounds of the two
--     threads, Messages send and recv, PingPayload that class of src/common/nanopb_encoder.cc.
--     Events puts all of them into sequences; Shape and Life are about what holds always, Closing
--     about release, Timing about retries and sleeps, Delivery and Losses about send and recv,
--     Signing about texts.
--   src/tts/tts_impl.cc, class TtsImpl: Tts.antt has the state and the client's calls, Requests
--     and Results the two threads, Polling poll; Options the options and the message of a request;
--     Receive is about the receiving thread, Poll about poll. Track says how the operations and the
--     streams of responses match: Reports is about poll, Settles about cancel, Opens about taking a
--     request, Pops about what is popped, Streams, Ends, Begins, Finishes and Responds about
--     responses. Run puts the calls and the threads into sequences: Serves has the invariant, Asks,
--     Takes, Handles, Calls and Moves take the steps one by one, Reach puts them together, and Overtakes
--     is about a wait that ends too early.
--   src/speech/speech_impl.cc, class SpeechImpl: Speech.antt has the state and the client's calls,
--     Voice put_voice, Requests the sending thread, Results the receiving thread, Poll poll, Options
--     the options; Config is about the setters, Sound and Receive are about single calls and Steps
--     about interleavings.
--   src/common/nanopb_decoder.cc and src/common/nanopb_encoder.cc: Nanopb/Decoder, with Strings
--     about a response's strings, and Nanopb/Encoder, with Fills for the calls of the setters and Filled
--     about the requests that they make.
--   Base has what they share, Tests concrete runs.
--
-- A function is what one thread does while it holds a mutex, up to the next wait or unlock. A
-- fault (a failed assertion, an iterator or a pointer that points nowhere) is none. A 32-bit
-- integer is its bit pattern. Fuel stands in two places: the loop of encode takes a round for each
-- whole frame and the loop of put_voice a round for each fragment, so more fuel than samples or
-- bytes is enough.
--
-- The two clients take what the connection's send and recv return as arguments; the connection
-- takes the websocket library, MD5 and the messages' encoding as parameters, a call of the library
-- as an entry of a log and its calls back as events.
--
-- In Tts/Run a sequence has fewer than 2^31 requests, so that no id is given twice, and ends a wait
-- for an operation only when it is no longer current; `wait_op_finish` itself tests this once, so that
-- a wake-up without a cause is not covered. prepare comes once, at the beginning.
--
-- In Connection/Events each event happens as a whole. A callback that acts on a stage read before,
-- and a send to a socket tested before, are events of their own, which are not prompt.
--
-- libopus writes no more than the room it is given. Opus/Calls takes one that encodes a frame the
-- same way whenever it has a certain number of bytes, and calls after whose packets the buffer of
-- 16384 bytes still has that number and one more.
--
-- Not modelled: nanopb, json-c and the HTTP of the trace uploader (parameters), logging, the clock,
-- and the bindings and demos. Speech is modelled as built without HAS_OPUS_CODEC, so that prepare,
-- config and put_voice do not call the encoder.
pub mod Base
pub mod Stream
pub mod OpCtl
pub mod Opus
pub mod Trace
pub mod TraceUploader
pub mod Pending
pub mod Nanopb
pub mod PendingStream
pub mod Connection
pub mod Tts
pub mod Speech
pub mod Tests
