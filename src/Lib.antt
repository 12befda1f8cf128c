-- ===== src/Lib.antt =====
-- mimino, a small HTTP file server, modelled from its C source.
--
-- The server's loop (mimino.c) polls its sockets, reads a request into a buffer (buffer.c), parses
-- it (http.c), finds the file that the path names (dir.c), writes a response's headers into a
-- buffer and sends them with the file, or with a listing of a directory. The command line is read
-- by arg.c. Memory that a function frees at its end is queued by defer.c.
--
-- Which file models what:
-- - Ascii: ascii.c, a Boolean function for each class of characters.
-- - Buffer: buffer.c and what it takes from xmalloc.c. A buffer is the list of the cells of its
--   allocation with the two counters of the C struct; a write outside the allocation gives `none`.
--   Buffer/Append proves the operations, and Buffer/FileContents has the reading of a file.
-- - Url: `buf_encode_url` and `decode_url` of http.c. Url/Encode and Url/Decode prove them.
-- - Http/Number: `ll_power` and `consume_next_num` of http.c. Http/Range: `parse_range_header`.
-- - Http/Request: `parse_http_request` of http.c. Http/Request/Reader has the request and the
--   cursor, Line the request line, Header one header; Total, Sound and RoundTrip prove the parser.
-- - Http/Writes: the calls that append to a buffer, as data. Http/Html: `file_list_to_html` of http.c,
--   proved in Http/Html/Rows. Http/Response: `make_http_response`, `write_dirlisting_http` and their
--   helpers of http.c, proved in Http/Response/Heads and, for directories, Http/Response/Directory;
--   Http/Response/End is about `is_http_end`.
-- - Dir/Path: `cleanup_path`, `resolve_path` and `get_base_name` of dir.c, proved by Segments, Resolve
--   and BaseName in Dir/Path.
-- - Dir/Files: `read_file_info` and `ls` of dir.c over a file system, proved in Dir/Files/Listed.
-- - Dir/Listing: the comparison and the sort of a listing's files and how a file is shown, in dir.c.
--   `strcoll` is a parameter. Order, Permutation, Ranks and Sorted in Dir/Listing prove them.
-- - Arg: `parse_args` of arg.c, proved in Arg/Match and Arg/Total. A write outside the definitions
--   gives `none`. A raw definition has no short name.
-- - Defer: defer.c, proved in Defer/Order.
-- - Server: mimino.c and its structs. Types has the structs of mimino.h and dir.h, Send has
--   `send_buf` (proved in Send/Progress), Pool the queue of connections and connection.c's
--   `make_connection` (an abstract view in Pool/Slots, proved in Pool/Refine; Pool/Bag forgets the
--   order of the entries, with Pool/Removed). Config has the configuration that `main` makes and
--   fdwatch.c. Transfer has `read_request`, `write_headers`, `write_body` and `write_file` (proved
--   in Transfer/Rest, Transfer/Cells and Transfer/Body), Conn `do_conn_state`, a function for each
--   state, and Loop an iteration of the loop in `main`. In Conn, Ready says what a connection has
--   between two steps, Writers, Steps, Accepts, Reads and Settled prove that the steps keep it,
--   and Receives, Serves, HeadRequest, Bodies, GetFile, GetDirectory and Exchange follow a request
--   to the bytes on the socket. In Loop, Entries and Kept carry this over to the queue, and
--   Iteration to an iteration of the loop.
-- - Server/Setup: `sockbind`, `init_server`, `accept_new_conn` and the start of `main`, proved in First
--   and Opened in Server/Setup.
-- - Dump: `hex_dump_line`, `dump_data`, `ascii_dump_buf` and buffer.c's `print_buf_ascii`, as what they
--   write; Dump/Read reads a dump back.
-- - Recvserver: recvserver/recvserver.c, compared with mimino.c in Recvserver/Address and followed to its
--   output in Recvserver/Output.
-- - Base: shared names, list lemmas, and the C library's string functions that the source uses.
-- - Tests: the theorems at concrete inputs, and runs of the code.
--
-- Conventions. A byte is its number; a `char` from 128 on, which is negative in C, is the number
-- of its byte. A C string is the list of its bytes without the NUL. `size_t` arithmetic wraps at
-- 2^64. What the system's calls return is a parameter. Allocation succeeds, since xmalloc.c ends
-- the program where it does not. `resolve_path` returns its text with the number of bytes allocated,
-- and its callers go on where the text is longer.
--
-- Loops are recursions on lists or counts. The loop over a request's headers takes fuel, one more than
-- the bytes received, and Total proves this enough; `send_buf` takes the length and six, since each
-- call sends a byte or uses up one of five tries. A count that its `int` cannot hold gives `none`.
-- The loop of `write_file` takes as many rounds as a parameter says, and Transfer/Rest proves one more
-- than the bytes left enough. The loop over the connections takes a round for each, since their number
-- never grows in it.
--
-- The loops of `buf_append_file_contents` and `dump_data` take rounds: two reads are enough for a file
-- that has not grown, and one line more than there are bytes. recvserver.c runs over lists of what its
-- calls return, and waits where a list ends.
--
-- Not modelled: what `getaddrinfo` and the calls on sockets do, which are parameters; the end of `main`
-- where `poll` fails; the text that the functions for printing state write, such as
-- `print_server_state`, where a NULL for `%s` is taken to be printed, as glibc does, and where of
-- `print_http_response` the reads of the body are modelled; and the freeing of memory. The programs
-- under addrinfo and getifaddrs print what the system's calls return.
pub mod Base
pub mod Ascii
pub mod Buffer
pub mod Url
pub mod Http
pub mod Dir
pub mod Server
pub mod Defer
pub mod Arg
pub mod Dump
pub mod Recvserver
pub mod Tests
