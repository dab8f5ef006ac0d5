-- ===== src/Lib.antt =====
-- Haze is a server for audio sessions: clients send MessagePack-RPC requests over TCP, the dispatcher
-- calls a function of the session, of its samples or its channels, and a response goes back.
--
-- The parts that are modelled, from the bottom up, with their files under source/:
--
-- - Memory: malloc, calloc, realloc, strdup and free as an action on a `Heap`, which holds the outcomes
--   of the coming allocations (`plan`: a list of outcomes, and then always success or always failure)
--   and the number of live blocks (`live`). A theorem
--   for every heap covers each pattern of failures; `IsAmple` says that none fails. Blocks are counted,
--   their contents are values of the other modules.
-- - Buffer (RawBuffer.c, RawBuffer.h): `new`, `init`, `dup`, `free_buffer`, `append` and `clear` are
--   RawBufferNew, Init, Dup, Free, Append and Clear. Buffer/Ledger: blocks and contents.
-- - Object (msgpack/Object.c, Object.h): the tagged union as the mutual data types `Value`, `Object`,
--   `Slots` and `Pairs`. Object/Copy is ObjectCopy, ObjectFree, ObjectArrayCopy and ObjectArrayFree, in
--   Object/Copy/Ledger counted in blocks and in Object/Copy/Content compared by content. Object/Array
--   is ObjectArray, Object/Equal is ObjectEquals, and Object/MapTable is ObjectMap and ObjectMapTable.
-- - Audio (audio/Sample.c, audio/ResultAudio.h) and Audio/SampleList (audio/SampleList.c): samples, and
--   the list that imports them by file, numbers repeated names, deletes and looks up by name.
--   Audio/Control is the rest of audio/Sample.c: a sample from data, its volume, and the getters.
--   Audio/Channels is audio/Channel.c and audio/ChannelList.c.
-- - Wire: MessagePack messages. Wire/Mpack states the calls of the mpack library as the records `Writer`
--   and `Reader`. Wire/Encode is ObjectMarshalMPack, of which api/proto/Request.c and
--   api/proto/Response.c each have a copy. Wire/Request is api/proto/Request.c, with RequestParamAppend
--   in Params, RequestMarshal in Marshal and RequestUnmarshal in Unmarshal, whose Steps and Back read
--   tags and parameters and whose RoundTrip reads a message. Wire/Response is api/proto/Response.c,
--   with ResponseUnmarshal in Unmarshal, whose Back reads objects (Reborn) and whose Fields reads the message.
--   Wire/Cursor: steps over a reader and memory.
-- - Wire/Notification is api/proto/Notification.c: Encoding and Refusals say what NotificationMarshal
--   writes and refuses, Ledger counts blocks, and Unmarshal is NotificationUnmarshal, whose Laws state
--   mpack's expect interface, whose Back reads objects, arrays inside arrays included, and whose
--   RoundTrip reads a message.
-- - Fs (fs/Paths.c, fs/InstanceRegistry.c): PathsJoin, PathsNew and PathsFree, and the choice of a port
--   from the names in the directory of instances. Fs/Registry is the file of an instance: Ports reads its
--   name back, and File is about its bytes and its blocks.
-- - Session (session/Session.c): a session, which owns its names, its samples and its channels.
-- - Api (api/Dispatcher.c, api/functions): `dispatch` is DispatchRPCMessage; it takes a request and the
--   session and gives a response, or the job that it hands to JobQueuePush, whose payload is a pointer
--   into the request and dangles once ServerDispatch gave the request back. Api/Effects: single
--   requests. Api/Jobs: FnSampleListImportSample, which the jobs are meant for.
-- - Server (server/Dispatch.c, server/HazeServer.c): `server_dispatch` is ServerDispatch, which reads a
--   request with Wire, dispatches it with Api and encodes the response. `on_read` is haze_on_read, which
--   adds the bytes that arrived to the connection's buffer and calls ServerDispatch while there are
--   bytes; `send` is haze_send. Server/Growth, Server/Loop and Server/Pipeline are about its buffer, its
--   loop and a buffer with several requests; Server/Connections is the list of connections.
--   Server/Middleware is server/HazeServerMiddleware.c.
-- - Server/Net: a server with all its HazeConns, and one function for each callback of libuv
--   (haze_on_connect, haze_on_alloc with haze_on_read, haze_on_write_done, haze_on_close), for the
--   broadcast, and for HazeServerNew, Start, SetupSignals and Free. In Server/Net/Steps the callbacks are
--   a step relation, under what libuv promises of their order; Sound is its invariant, Ledger counts
--   blocks, HangUp follows a connection to its end, Broadcast is about HazeServerBroadcast, and Free about
--   HazeServerFree. Server/Closes is about the calls of uv_close in haze_on_read.
-- - Context (Context.c, audio/AudioEngine.c) and Main (main.c): the parts of an instance made one after the
--   other, and the search for a port.
-- - Tests: runs at concrete input. Tests/Codec and Tests/Expecting are a writer and a reader of lists.
--
-- A null pointer is `none`, a returned NULL or false is a value, and a use of a null pointer is an
-- outcome of its own where the code can reach it. A C string is its bytes before the terminator. A
-- float is its IEEE-754 bit pattern. Functions that only differ from their callees by a test of null
-- arguments are modelled for arguments that are there where the comment above them says so.
--
-- Libraries are parameters: the mpack writer and reader with the laws of `Writes`, `Reads`, `Expects`
-- and `ExpectsHead`, the engine and the file system as `Engine`, time and rand with the engine as
-- `World` and `Outside`, `Decoders` for data in memory, `FixedWriter` with `WritesFixed` for a buffer
-- that does not grow, and what uv_write answers as `accepts`, of which nothing is assumed unless a theorem says
-- so. The laws of `Writes` speak of a writer that does not run out of memory.
--
-- The loop of RequestParamAppend that fills a gap repeats a round whose allocation failed. Its fuel is
-- the missing elements and the outcomes that the heap plans before those that are always the same; each
-- round uses up one of them, or allocation fails for ever. Then the loop does not end, which is the
-- outcome `endless` of RequestUnmarshal and of haze_on_read. The loop of haze_on_read and the doubling of its buffer have the number of bytes for fuel: a round takes a
-- byte at least, or doubles a capacity that is not 0. NotificationReadObject and ObjectUnmarshalMPack have
-- one more than the buffer's length for fuel, since each array takes a byte.
--
-- The loop of main that looks for a port has fuel for its rounds, which is enough if it is more than the
-- number of taken ports before a free one.
--
-- A string that is written with a size behind its terminator is read from memory that is not its own:
-- `write_cstr` of the writer takes it, and nothing is known of what it writes (`IsInside` excludes it).
-- A string is known by its bytes and a size; a map is written as nil.
--
-- JobQueuePush, JobQueuePop and JobQueueNew (JobQueue.h) are declared only, and ContextNew calls
-- uv_loop_init with a null pointer: `Outside` says whether that call returns and what JobQueueNew does.
--
-- Not modelled: JobInit, which nothing calls; what a sample asks of
-- miniaudio in floats (SampleSeek, SampleGetCursor); RawBufferSetData and the functions that print for a
-- log; tempo and the project header, the vendored libraries, and the clients and tools in other languages.
-- msgpack/Decoder.c is commented out.
pub mod Base
pub mod Memory
pub mod Buffer
pub mod Object
pub mod Audio
pub mod Fs
pub mod Session
pub mod Wire
pub mod Api
pub mod Server
pub mod Context
pub mod Main
pub mod Tests
