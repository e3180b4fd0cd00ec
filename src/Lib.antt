-- ===== src/Lib.antt =====
-- AISL, an asynchronous HTTP server library in C.
--
-- An instance (src/instance.c) owns servers and clients. A client (src/client.c) keeps an input
-- buffer, feeds it to the HTTP/1.x parser (src/http.c), and sends what its stream (src/stream.c)
-- has put into the stream's own buffer. Buffers are those of src/buffer.c.
--
-- Prelude       Boolean tests, C arrays as lists with native indices, NUL-terminated strings, and
--               in Prelude/Alloc the allocator, a parameter with the documented laws of realloc.
-- Buffer        src/buffer.c, function by function under the names of the source. `struct buffer`
--               is the record Buffer, its memory the list of its bytes. Children: Grow (the
--               invariant and growing), Contents (append), Insert, Print (vprintf), Shift, Refusal
--               (why they fail), Bounds (int32_t).
-- Types         the enumerations of include/aisl/types.h and the name tables of src/types.c and
--               src/http.c.
-- Http          the request line of src/http.c: request_char is one round of the loop of
--               http_10_parse_request, scan_request the loop, cut_line and deliver the checks and
--               the writes behind it. Http/Header is http_10_parse_header in the same way. A
--               pointer is an offset into the input; the events that the parsers raise are their
--               results.
-- StrUtils      src/str-utils.c: str_cmpi; Laws compares it with equality of lowered letters.
-- Spool         src/list.c: `struct list`, an array of pointers, is the record PtrList; Laws takes
--               its operations to operations on the sequence of entries.
-- Stream        src/stream.c: the struct and its states. Response has aisl_response and
--               aisl_stream_close_headers, each of whose tests is a part joined by >>; Write has
--               the functions for headers, data and the end. Draft states parts as functions of the
--               text written so far; Status, Closed, Page and Reply go from the status line to the
--               whole response, Refusal ties each failure to a refused realloc; Forward and Order
--               are about the states, Headers about aisl_header, Pointer about the user's pointer.
--               Request has the functions that the parser calls; where the source raises an event
--               within one, as in aisl_stream_set_body, it is a result, and `emit` of Client/Parse
--               calls the handler right behind. Conn is a stream with the two fields of its client
--               that it uses.
--
-- Api           what a handler may do within an event: a Program of calls of include/aisl/stream.h,
--               each chosen by the answers before it and by the world, which it may change; and
--               System, the parameter for sockets, OpenSSL, the clock, calloc and the user's
--               callback.
-- Client        src/client.c. A Session is a client, the world and the log of the events raised.
--               raise is aisl_raise, which runs the handler's program; a handler that closes the
--               client raises an event within an event, two levels deep at most. Depth shows that
--               one is enough for a handler that does not close the client within
--               CLIENT_DISCONNECT; one that does never returns in the source, which the model does
--               not follow: it leaves out the closing at the last level, and Recursion shows that
--               such a handler goes as deep as it is allowed. Parse is aisl_client_parse with the
--               parsers of src/http.c, Rounds its loop; Touch is aisl_client_touch with input and
--               output. Keeps is what holds between a session and a later one, with ParseKeeps,
--               InputKeeps and TouchKeeps; Outcome is about the answers of a touch, with Stamps for
--               the time of the last success, Forward about the states of the stream under a
--               handler, Sending about a response on its way out, Life about a client touched again
--               and again. Lines, Effects, Fields, Opening and Request follow a whole request
--               through the parsers to its events, where the handler only looks on, and Body a body
--               in pieces.
--
-- Handler       what the handlers of examples/hello-world.c and bare/src/welcome.c share:
--               page_served sends a page. Page has what it leaves of the stream, Answer goes from
--               the bytes of a request in the input buffer to those of the page.
-- HelloWorld    examples/hello-world.c: its handler and its main function.
--
-- Ssl           src/ssl.c with aisl_new_ssl and aisl_get_ssl_ctx of src/instance.c; OpenSSL and the
--               allocator are the parameter OpenSsl. Laws looks contexts up by host.
-- Client/New    aisl_client_new; New/Laws and New/Secure are about its answers.
-- Server        src/server.c: a server opens its socket when it is touched first, and then accepts
--               clients. The socket calls are the parameter Net.
-- Instance      src/instance.c: aisl_run_cycle and aisl_free, and in New aisl_new. Sweep compares
--               the loop over the clients with a pass over their list, Slots has the lemmas on the
--               spool, Running and Invariant are about the clients between cycles, Life about an
--               instance from aisl_new to aisl_free. Sleep is aisl_sleep, with `select` and
--               FD_SETSIZE as parameters and the writes behind the fd_set as a result, and the loop
--               of a main function; Waits and Main are about these. aisl_free reads servers that it
--               has freed; it counts these reads, and what it gives besides is what a machine would
--               do that still finds the freed server.
-- Bare          the sample server in bare/: Memory has the contexts of its streams, in a memory
--               that counts the accesses through NULL or a freed pointer, Welcome is
--               bare/src/welcome.c, Router bare/src/router.c, Main bare/src/main.c. Contexts has
--               what each event does with and without a context; Answer is about requests that are
--               served, Laws and Faults about those that are not. After an access that is a fault
--               the handler stops and the model goes on; the program may do anything there.
--
-- Numbers are natural numbers. Sizes of type int32_t are not negative in the calls of this code,
-- and Buffer/Bounds bounds them for sizes of at most 2^31 - 4096, behind which round_size,
-- unbounded here, overflows in the source; where an int32_t result is -1 for failure the model has
-- `none`. The recursion of buffer_append_vprintf on itself is given two rounds, and two are proved
-- to be enough. The loops of the parsers recur on the input. The loop of aisl_client_parse is given
-- one round more than there are bytes, which is proved to be enough.
--
-- A handler acts on the client of its event, as the functions of the API do.
--
-- Not modelled: welcome_release, which nothing calls, and what the main functions print; what a
-- format prints where its arguments are not in the model (an argument); sockets, OpenSSL, the clock
-- and the choice of the allocator to refuse (parameters). A main function loops without end; its
-- loop is taken for any number of rounds. A NULL host in a TLS configuration is left out.
pub mod Prelude
pub mod Buffer
pub mod Types
pub mod StrUtils
pub mod Http
pub mod Spool
pub mod Stream
pub mod Api
pub mod Client
pub mod Handler
pub mod Ssl
pub mod Server
pub mod Instance
pub mod HelloWorld
pub mod Bare
