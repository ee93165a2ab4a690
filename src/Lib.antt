-- ===== src/Lib.antt =====
-- DTimeDB, a time-series database: a model of its core in antt, with the theorems that make it correct.
--
-- The program takes a query text apart (lexer, parser, evaluator), runs it on a storage engine, and
-- serves clients over TCP. The engine keeps the points of each field in memory and flushes them as
-- compressed blocks to TSM files, with an index of the blocks at the back of each file.
--
-- Tsm (engine/tsm): the TSM files.
--   Tsm/File.antt: a file as a list of bytes; what a seek followed by a read or a write does to it.
--   Tsm/File/Stored.antt: bytes that stand in a file, and which writes leave them there.
--   Tsm/Timestamps.antt, Tsm/Strings.antt: calculate_differences, restore_timestamps and the four
--     (de)serializers of engine/tsm/tsm.cpp; proofs in the modules below them.
--   Tsm/Block.antt: write_data_to_file and read_data_from_file of engine/tsm/tsm.cpp.
--   Tsm/Index.antt: the index writers of engine/tsm/tsm.cpp, the loader load_tsm_index_entry of
--     engine/tsm/iterator.cpp, and the flush of one series of engine/tsm/write.cpp. Tsm/Index/Chain.antt
--     is the abstract view of the index region, a list of blocks, which Load and Flush refine.
--   Tsm/Layout.antt: data blocks and index blocks in one file.
--   Tsm/Create.antt: header, footer and create_tsm of engine/tsm/tsm.cpp, and how queue_flush_disk of
--     engine/tsm/write.cpp begins a file; Life and Unflushed are about the file after that.
-- SkipList (engine/tsm/skip_list.h): SkipList<std::string> on a heap of nodes with vectors of pointers.
--   SkipList/Cells.antt, Walk, Search, Links: what nodes stand for, where walks end, what one pointer changes;
--   SkipList/Link.antt and Unlink: the loops of put and del; SkipList/Points.antt: the plain list of points;
--   SkipList/Shape.antt, Lookup, Insert, Erase, Clear, Iterate, Holding: each operation on a list in shape;
--   Refine: all calls; SkipList/Levels.antt: the levels drawn.
-- Field (engine/tsm/field.h, engine/tsm/field.cpp): Field::write with its windows and the blocks that it makes.
--   Field/Plain.antt: a window over plain points; Field/Refine.antt, Flush and Windows: windows over skip lists
--   do the same; Field/Laws.antt and Blocks: the bounds of windows and blocks.
-- Write (engine/tsm/write.h, engine/tsm/write.cpp): the writer of one table.
--   Write.antt: its state, queues and shards; Write/Enter.antt: write and get_field, which Entered, Arrival and
--   Queued are about; Write/Round.antt: queue_flush_disk, one round and the loop;
--   Write/Margin.antt, Growth, Account and Tasks: the account of the room in a file, on which Safe rests;
--   Write/Readable.antt and First: a written block in its file, and the first of a shard;
--   Write/Registered.antt: the task queue; Write/Ends.antt: the loop ends. Maps.antt: the maps of the writer.
-- Token (token/token.h, token/token.cpp): token types, their names, the keyword table.
-- Lexer (lexer/lexer.h, lexer/lexer.cpp): the lexer with its positions; Lexer/Scan.antt is the same
--   language as a function of the text that is left, and Lexer/Refinement.antt relates the two.
-- Ast (ast/*.h): the nodes of the syntax tree.
-- Parser (parser/parser.h, parser/*.cpp): the parser, a machine over the lexer with two tokens of look-ahead.
--   Parser/Clauses.antt: the statements without expressions (use, show, create, insert, the fields of select);
--   Parser/Expressions.antt: parse_expression with the functions of its tables, and parse_program;
--   Parser/Print.antt: expressions as lists of tokens, which RoundTrip and Source relate to the parser;
--   Parser/Insertion.antt: insertions as lists of tokens.
-- IoBuffer (server/include/io_buffer.h, server/src/io_buffer.cpp): the buffers of TCP connections.
--   IoBuffer.antt: io_buffer; IoBuffer/Pool.antt: buffer_pool; IoBuffer/Tcp.antt: tcp_buffer,
--     input_buffer and output_buffer. A buffer has one owner at a time, so it is a value.
-- TimerQueue (server/include/timer_queue.h, server/src/timer_queue.cpp): the heap of timers; Hold,
--   Events and Fired are about heap_hold, the events that the queue holds, and get_timo.
-- Tests: runs and instances.
--
-- Conventions. A byte is a number; an integer of w bits is its bit pattern, with the wrap-around written
-- out by `%`. Words in files are little-endian, as on the machines that the program is built for. Texts
-- are lists of bytes. A stream that is not open is a Boolean argument; a short read makes the result
-- `unspecified`, an exception `thrown`. The compressor snappy is a parameter, with its documented round
-- trip as its law. Output to the console is left out.
--
-- Loops on fuel. deserialize_differences has a round for each byte of its text and one more, and each
-- round takes eight bytes. deserialize_strings has as many; the theorems on it show that this is enough
-- for whatever was serialized, and that some corrupted texts have no end. The loader of the index has a
-- round for each byte of the file, and each round takes eight. The lexer's loops have a round for each
-- character of the input and two more, and each stops by its own test before that. heap_hold settles in
-- two rounds, get_timo has a round for each timer and one more, and the loop of heap_add, which halves its
-- place, a round for each place.
-- The loops of a skip list have a round for each node that it counts and one more; each round goes a node on.
-- A round of queue_flush_disk takes a task or a block, and a block makes one task at most.
-- The parser takes a unit of fuel for each call and each round of a loop; the theorems bound what an
-- expression (`weight`) and an insertion need, and show that some texts have no end.
--
-- A file that does not open: the branches for it are modelled as tsm.cpp writes them (`not_open`), but
-- get_file_stream (file_manager/file_io_manager.cpp) returns a null pointer then, so the model of
-- queue_flush_disk has no defined behaviour behind a data block whose file does not open. Its writes of
-- headers and index blocks keep those branches, and then leave the file as it is.
--
-- Not modelled: the evaluator, the iterators, JSON, the observers that a field notifies (the notices are
-- values), the draws of rand and the date of a point of time (arguments), and the threads of the engine:
-- queue_flush_disk runs under its mutex, and what other threads push into the queues meanwhile is left
-- out. A footer of 2^63 or more, negative in the loader of the index, is outside the model, as are
-- sockets, the file manager's paths and generated code.
mod Prelude
pub mod Tsm
pub mod Token
pub mod Lexer
pub mod Ast
pub mod Parser
pub mod Field
pub mod SkipList
pub mod Maps
pub mod Write
pub mod IoBuffer
pub mod TimerQueue
mod Tests
