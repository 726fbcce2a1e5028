-- ===== src/Lib.antt =====
-- A verification library for five systems programs: a debugging allocator (Assign1/m61.c), buffered
-- I/O (Assign2/io61.c), a teaching kernel (Assign4), a shell (Assign5/sh61.c) and a network client
-- (Assign6/pong61.c).
--
-- Prelude: names, tests and lemmas that the parts share. Prelude/Search: the loop that returns the
--   first index to pass a test. Prelude/Words: sums, differences and signs of machine words.
--   Prelude/Links: doubly linked lists in a store, which M61 and Io61 both keep.
--
-- Kernel (Assign4/kernel.c and k-loader.c). Kernel/State has the data: `processes`, `pageinfo`, `current` and
--   `ticks`, with the arrays as functions of the index. What kernel.h, lib.h and k-hardware.c give
--   (sizes, address macros, page tables, memory) is the parameter `Hardware`, with the laws of the
--   address macros as `AddressLaws` (Kernel/Alloc). Kernel/Pages: find_free_process_slot,
--   find_free_physical_page, physical_page_alloc, alloc_free_page, copy_pagetable. Kernel/Release:
--   find_page_owner and free_current_process. Kernel/Fork: fork_process, whose loop is counted by
--   `fork_rounds`. Kernel/Schedule: schedule and run; the loop has fuel, and a table's length of
--   rounds decides it. Kernel/Check: virtual_memory_check. Kernel/Exception: exception and its
--   system calls. Kernel/Loader (k-loader.c): program_load and copyseg, over the program images.
--   Kernel/Boot: kernel, pageinfo_init, process_setup. Their loops are counted by
--   `segment_rounds` and `memory_rounds`; PAGENUMBER and process_init have their laws in
--   `PageLaws` (Kernel/Pageinfo) and `ProcessInitLaws` (Kernel/Booting). Reference counts are int8_t bit
--   patterns with their wrap-around; process numbers stay below 128, so that an owner holds
--   them. Proofs: Kernel/Ownership and Kernel/Released on giving pages back, Kernel/Alloc,
--   Kernel/ForkFrame and Kernel/Forking on fork, Kernel/RoundRobin on the scheduler,
--   Kernel/CheckFrame and Kernel/Fair on turns of the processes,
--   Kernel/Invariant, Kernel/Trap and Kernel/Resume on whole exceptions, Kernel/Syscalls on
--   single calls, Kernel/Loading, Kernel/Pageinfo and Kernel/Booting on the start of the
--   machine, Kernel/Reach on the states in which a process runs.
--   Kernel/Display: the pictures of memory that exception draws, on a console of cells; where
--   the drawing stops, so does exception. Kernel/Shown is on what they show, Kernel/Drawing on when
--   they come to their end. CPOS and console_printf are a parameter, with laws in `ScreenLaws`.
--   Not modelled: the text on the console, the keyboard, and the assembly that restores registers.
--
-- Shell (Assign5/sh61.c). Shell/Command: `struct command`, command_alloc, add_cmd_node,
--   command_append_arg, free_command_grp. Shell/Control: is_control_cmd. Shell/Parse:
--   eval_line, over the tokens that parse_shell_token returns (it is not in the repository),
--   as the step `read_token` folded over the line; what fork() answers at a background mark
--   comes with the token. Shell/Run: run_list and begin_piping, over a `System` that says what
--   waitpid reports and whether redirection and chdir succeed; a round leaves fewer nodes, so
--   the length of the list is fuel. Shell/Posix: the system calls on descriptors and processes, as
--   a parameter with laws on a process's table of descriptors (`PosixLaws`). Shell/Launch:
--   do_redir, cmd_redir, change_dir, start_command, begin_piping and the cd branch of run_list
--   over them; a child is followed to its execvp or its exit. Shell/Prompt: the loop of main over
--   the list of what fgets answers, and eval_line on a line of bytes, whose tokenizer is a
--   parameter. Proofs: Shell/Groups on groups of commands, Shell/IfLine and Shell/Accept on the
--   lines that the shell accepts, Shell/Ends, Shell/AndOr and Shell/IfThen on running a list,
--   Shell/Redirect, Shell/CdRestores, Shell/Descriptors and Shell/Wiring on descriptors,
--   Shell/Pieces and Shell/PromptLines on the lines that are evaluated.
--   Not modelled: the process groups of run_list, the terminal, the signal handlers, waiting for
--   zombies, and freeing the memory of commands.
--
-- M61 (Assign1/m61.c and m61.h). M61/State: statistics, metadata headers, tracking arrays, and the
--   globals; headers and boundary words are stores of their own, and a file name is numbered by its
--   contents. M61/Malloc: m61_malloc, m61_calloc, over the malloc of the C library. M61/Free:
--   m61_free with its three checks, m61_realloc, and the leak report as a list; the walk along
--   the list has fuel. M61/Hitters: trackheavyhitters and sortheavyhitters.
--   M61/Report: m61_getstatistics, and m61_printheavyhitters with the elements that it prints; the
--   comparison of a percentage is a parameter. Sizes wrap at
--   2^64, the payload size of a header at 2^32, the bias of a tracking array at 2^32. Proofs:
--   M61/Chain, M61/Linked and M61/Unlinked on the doubly linked list, M61/Frees and
--   M61/Accepted on whole frees, M61/Sizes on the size that is asked for, M61/Sorting on
--   sorting.
--   The lines that callers pass are not 0, as those of __LINE__: a tracking element without a file
--   name has line 0, and its name is never compared. Where a boundary word lies is an address that wraps
--   around; it is in a store of its own, so it does not overwrite the bytes of a payload or of
--   another block.
--   Not modelled: the bytes of payloads, the text that is printed, and the floats of a percentage.
--
-- Pong (Assign6/pong61.c). Pong/Http: `http_connection`, the reset in http_send_request,
--   http_process_response_headers, http_check_response_body, and http_receive_response_headers and
--   http_receive_response_body over the list of what read() answers. The loop over the buffer is
--   taken a line at a time, with the length of the buffer as fuel: a line takes two bytes or more.
--   sscanf and strtoul are the parameter `Scanner`. Pong/Pool: get_connection. Pong/Send:
--   http_send_request over the list of what write() answers. Pong/Thread and Pong/Finish:
--   http_connect, set_stop_delay and pong_thread over a list of turns, each with what the other
--   threads did to the table and what the socket answers; a connection is named by its slot, and
--   delays are in units of 5 ms. Pong/Game: the
--   rounds of the loop in main, with the moving dot and the clock; the number of threads and
--   the time of day are inputs of a round. Proofs: Pong/Chunks on parsing in pieces,
--   Pong/Receive on the reading loops, Pong/Response and Pong/Body on whole responses,
--   Pong/Backoff on the attempts of a thread, Pong/Rounds, Pong/Clock, Pong/Dots and Pong/Play on the game.
--   A request of BUFSIZ bytes or more, and a response that does not fit into BIGBUFSIZ bytes, end the
--   run of the model where the source writes past its buffer; BUFSIZ is a field of `Request`.
--   Not modelled: the text that http_truncate_response prints, starting threads, two threads in one connection, and the
--   options of main.
--
-- Io61 (Assign2/io61.c). Io61/State: `io61_file`, the buffers, the nodes of mapped files, and the
--   globals. The system calls are the parameter `System`; what the theorems rely on is stated as
--   laws: a write appends what it takes (`Appends`, Io61/Output), and reads drain the input in
--   pieces that are empty only at its end (`Drains`, Io61/Input), as those of a regular file do, or
--   of a pipe whose write end is closed. A call comes to an
--   `Outcome`: it returns, or the program ends at exit(1), at abort() or at an access through
--   NULL. Io61/Maps: insert_first, remove_mmap, search_in_list, whose walk has fuel; the
--   length of the list is enough. Io61/Read: io61_readc, io61_read, io61_eof. Io61/Write:
--   io61_writec, io61_write, io61_flush; the loop of io61_write goes round once or exits, so
--   its fuel is 1. Io61/Files: io61_fdopen, io61_close, io61_seek, io61_filesize. Offsets are
--   bit patterns, of 64 bits for an off_t and 32 for an int. Proofs: Io61/Ensures has the
--   rules of a postcondition, Io61/Slices and Io61/Output are on writing, Io61/ReadBuf,
--   Io61/Input, Io61/Refill and Io61/Pipe on reading what is not mapped, Io61/Mapped,
--   Io61/Removed, Io61/MapRead, Io61/MapSeek and Io61/OpenClose on mapped files.
--   Not modelled: io61_open_check, which opens a path, the memory that munmap and free give
--   back, and the profiling functions.
pub mod Prelude
pub mod Kernel
pub mod Shell
pub mod M61
pub mod Io61
pub mod Pong
