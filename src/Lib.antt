-- ===== src/Lib.antt =====
-- A verification library for mhttp, an HTTP/1.1 server library in Rust (src/, with the procedural
-- macros in macros/src/lib.rs).
--
-- The program. A connection (src/connection.rs) reads the head of a request into a buffer and hands
-- its lines to `FieldLines` (src/field_lines.rs), which keeps every name and value in one arena of
-- bytes. The server (src/server.rs) looks the path up in the radix tree of src/router.rs, runs the
-- handler of the route, which may read the body (src/body.rs), and writes the response
-- (src/response.rs) with its header fields and its body, in chunks where its length is not known.
--
-- What models what.
--   FieldLines, FieldLines/Parse   `FieldLines::{new, set, get, remove, to_bytes, iter}` and
--                                  `From<&[u8]>` of src/field_lines.rs: the record has the arena and
--                                  the table of four `u32` indices for each header.
--   FieldLines/Fields              the abstract view: an ordered list of names and values.
--   FieldLines/Index to /RoundTrip the proofs: inside of the arena, the refinement, the parser.
--   Router                         `Segment`, `Node::{insert, find}`, `next_segment` and
--                                  `Router::{build, find}` of src/router.rs, with `RouteDefinition` of
--                                  src/route_definition.rs. A handler is a value of any type.
--   Router/Order to /Shadowing     the proofs: the order of children, what is found, and what wins.
--   RoutePattern, RoutePattern/Grammar, /Routes
--                                  `RouteDefinition::validate_route` of src/route_definition.rs and the
--                                  grammar of the patterns that it accepts.
--   Macros, Macros/Literals, /Segments
--                                  `validate_route_literal` and the checks of `static_files` in
--                                  macros/src/lib.rs, and what they accept.
--   RouteBuilder, RouteBuilder/Laws
--                                  `RouteDefinition::new` and its builder, and what chains of calls build.
--   ServerBuilder, ServerBuilder/Built
--                                  `HttpServerBuilder` of src/server.rs, and what `build` gives.
--   Method                         `HttpMethod` of src/request.rs.
--   Input, Input/Reads             `Connection.reader` and the reads that the transport answers.
--   Body                           `Body::{read_exact, read_chunked}` of src/body.rs, and
--                                  `format_hex`, `write_chunk` and the chunked branch of `write_body` of
--                                  src/connection.rs.
--   Body/Hex to /Bound             the proofs: sizes in hexadecimal, the round trip, and the limit.
--   Multipart                      `Multipart` of src/body.rs, with `read_parts` for the loop of `parse`.
--   Multipart/Bodies               `Body::{as_multipart, as_json, to_bytes, is_stream}` of src/body.rs.
--   Multipart/Headers, /Parts, /Ends
--                                  the proofs: the header lines of a part, whole forms, and the end.
--   ActiveSet, ActiveSet/Steps, /Waits, /Unique, /Held
--                                  `ActiveSet` and its guards in src/active_set.rs, as steps of threads
--                                  that interleave, and the proofs about the counter, the waiters, and the entries of
--                                  guards that are held.
--   ActiveSet/Entries              what `ActiveSet` and `ActiveGuard` read and update of their map.
--   Cookies, Cookies/Reading       `CookieStore` with its headers and dates in src/cookie_store.rs, and the
--                                  proof about what is read.
--   Response, Response/Status      `HttpResponse` and `HttpStatusCode` of src/response.rs, with
--                                  `is_compressible` of src/compress.rs.
--   Response/Reserved, /Lengths    the proofs: reserved names, and the length of a body.
--   Cors, Cors/Policy              `Cors` and its builder in src/cors.rs, and who is answered what.
--   Request                        `HttpRequest::parse` and `BodyState` of src/request.rs.
--   Request/Lines, /Parsing        the proofs: a request head is written and parsed.
--   Connection, Connection/Writing `Connection` of src/connection.rs: `read_request`, with `read_head` for
--                                  its loop, and `write_response`, with `write_head` for `header_buf`.
--   Connection/Reading, /Requests, /Sent
--                                  the proofs: the cuts between reads, flushing, and what is written.
--   Call                           `HttpCall` of src/server.rs, with `drain` for the loop of
--                                  `discard_unread_body`, and `HttpServer::finish`.
--   Call/Drain, /Bodies, /Extras   the proofs: what is left behind a request, bodies, and extras.
--   Server                         `HttpServer::handle_single_request` of src/server.rs; middleware and
--                                  handlers are functions on the call.
--   Server/Conversations           `HttpServer::handle_connection`, and a connection served to its end.
--   Server/Restarts                the control plane of `HttpServer::listen`: each arm of its `select!`, each
--                                  check of a new process, and the waits behind the loop are steps.
--   Server/Restarts/Modes          its specification: the modes of a restart, and their steps by event.
--   Server/Restarts/Taken, /Allowed, /Refine
--                                  the proofs: the loop takes the steps of its specification and no other.
--   Server/Telemetry               `RequestInfo`, and the hook that `on_request_complete` is called from.
--   Server/Barrier                 `ThreadDrainBarrier` of src/server.rs, as steps that interleave.
--   Server/Sending, /Turns, /Answers, /Answered, /Refusals
--                                  the proofs: one turn of a connection, what it writes, and what no
--                                  route answers.
--   StaticFiles, StaticFiles/Paths `serve_static` of src/static_files.rs, with what it uses of paths.
--   StaticFiles/Confined, /Ranges, /Served
--                                  the proofs: which files are shown, ranges, and what is sent.
--   Common                         lists, bytes, `memchr`, `memmem`, UTF-8 and `str::trim`, decimal
--                                  numbers, hash maps as lists of pairs, and Boolean tests.
--
-- How they meet. Requests and responses hold the abstract fields, which `FieldLines` implements by its
-- refinement theorems; `parse` reads a block by `FieldLines` itself and goes on with the fields that it
-- holds. `Connection` reads heads from an `Input`, as `Body` reads bodies, so the theorems on one
-- request and on its body speak of one stream of bytes.
--
-- Numbers. `usize` has 64 bits and `u32` 32; where the source casts or adds, the wrap-around is
-- written out (`as_u32`, `sub_u32`, `usize_mod`). A slice out of range, which panics, is `none`.
--
-- Fuel. `read_lines` has one unit for each byte of the block and uses at least one byte for each
-- line; `read_chunked` has one more than the bytes that arrive, and each chunk takes a byte at least;
-- `format_hex` has 16 and `format_u64` 20, the digits of their buffers; `read_pairs`, of the cookies,
-- has the length of the text; the loops of `Multipart` have one more than the bytes; `strip`, in
-- trimming, has the length of the text, and so has `walk`, in the macros. `handle_connection` has a list
-- of turns, one for each request and one for the end.
-- `from` needs the square of the block's length below 2^33, since each repeated header copies its
-- value to the end of the arena.
--
-- Threads. Each atomic operation of src/active_set.rs and of the barrier in src/server.rs, and each
-- access to its map under the lock, is one step, and all threads see the steps in one order; weaker
-- memory orders are not modelled. A set holds fewer than 2^64 guards, since each takes memory. An arm of
-- the control loop of src/server.rs is one step; nothing else happens in it while it runs.
--
-- What a guard's hook does for a request (`on_sent` in Server/Telemetry) is one function: only the guard
-- itself changes its entry, so nothing comes between its update and its read that would change it.
--
-- The transport is not part of the source. A list of events stands for what it answers: bytes, an
-- error, or silence; its end is the end of the stream. A body that is a stream is a list of reads in the
-- same way, each of which gives bytes or fails; an encoder is a function on this list. Time does not
-- pass in `read_exact` and `read_chunked`, which have no timeout; silence is longer than the timeouts of `read_request` and of
-- `discard_unread_body`. What was written is flushed or waits in the buffer; that a full buffer writes
-- through is left out, and a broken transport shows at a flush. `memchr`, `memmem`, `str::from_utf8`,
-- `str::trim`, `str::cmp`, `usize::from_str_radix` and the operations of `Path` are written out from their
-- documentation.
--
-- Parameters. The clock is a number of seconds, the text of a date by `chrono` is a function, and so
-- are the encoders of `async_compression`. The file system of src/static_files.rs is a record of functions
-- from paths; nothing changes it while a request is served. What the operating system answers to a restart
-- or to the binding of a port, what rustls builds, and the parser of `serde_json` are functions. The order of a hash map is that of its list.
--
-- Not modelled: the capacity of buffers (`reserve`), which has no effect on their contents; sockets,
-- TLS; serde; query parameters, which `form_urlencoded` decodes; the connection behind a body whose
-- reading failed; the threads of src/server.rs; and the files of src/ that the list above does not name,
-- on which the parts that it names do not depend.
pub mod ActiveSet
pub mod Body
pub mod Call
pub mod Common
pub mod Connection
pub mod Cookies
pub mod Cors
pub mod FieldLines
pub mod Input
pub mod Macros
pub mod Method
pub mod Multipart
pub mod Request
pub mod Response
pub mod RouteBuilder
pub mod RoutePattern
pub mod Router
pub mod Server
pub mod ServerBuilder
pub mod StaticFiles
