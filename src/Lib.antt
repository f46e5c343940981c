-- ===== src/Lib.antt =====
-- A verification library for a set of C programs, each in its own directory of the repository. The
-- programs do not call one another; the modules here follow the directories.
--
-- Zip: HW01-Zipjpeg/src, which lists the members of a zip archive that may follow other data.
--   Zip/Run is the result of code that reads memory and asserts: a value, or a stop at a read
--   outside the file, at a failed assert, or at the end of the fuel. Zip/Detail has the memory and
--   the little-endian reads and dos2ctime of detail.c; addresses are size_t, so they wrap at
--   2 ^ 64. Zip/Header has find_eocdr, read_cfh and read_lfh, Zip/Archive has zip_read, zip_member
--   and the loop of list_zip, all of zip.c. Zip/Reads, Zip/Safety, Zip/Members and Zip/Listing
--   prove which reads stay in the file. find_eocdr has 2 ^ 16 rounds, as its loop counts a 16-bit
--   comment length; the loop of list_zip has as many rounds as the archive has members and one more.
--   Zip/Program has read_file of detail.c over an interface to stdio, list_zip and main.c; the loop of
--   read_file has a round for each byte of the file and two more. Zip/Image says how an archive of
--   stored members is laid out, from the bytes of Zip/Bytes and the numbers of Zip/LittleEndian;
--   Zip/Written, Zip/Laid and Zip/Accepted prove what the code finds in it, Zip/Program/ReadFile that
--   a file is read whole, and Zip/Program/RoundTrip is about the whole program. mktime, malloc and
--   stdio are parameters.
--
-- Mouse: HW14-driver/mouse_driv.c, a character device over a ring buffer of 1024 bytes. Mouse has
--   the buffer and the file operations; each runs under one mutex from its start to its end, so a
--   call is one step. The user's memory is a list of bytes or refused addresses for write, and a
--   test of refused addresses for read; the two random numbers of the timer callback are arguments.
--   Mouse/Ring and Mouse/Calls prove the operations against the queue of waiting bytes. Mouse/Module
--   has mouse_init with its ladder of goto labels, over the results of the kernel's calls, and
--   mouse_exit.
--
-- Game: HW17-2048/src/main.c, the game 2048 on a 4 × 4 board. Game has the moves, canMove,
--   checkWin, addRandomTile and gameLoop over the list of typed keys; rand() is a function of the
--   number of earlier calls. Game/Row and Game/Moves prove the moves against the rule of the game,
--   Game/Over and Game/Stuck canMove, Game/Total and Game/Values what a move keeps, Game/Random the
--   new tile, Game/Win and Game/Loop the whole game. Tiles are natural numbers: they never pass 2048,
--   so an int holds them. Game/Menu has mainMenu over the characters that are typed, with what scanf
--   reads of them, and Game/Menu/Sessions is about all games of a session; the rounds of the menu are
--   counted, as its loop may have no end. What is printed is not modelled.
--
-- Log: HW10-LogParser/src/main.c, the statistics of a directory of access logs. Log has the maps of
--   counts, the parsing of a line, the dealing out of the files to threads and the merge of their
--   results; the threads share nothing, so a thread is the run of its function. sscanf and the lines
--   that fgets returns are parameters, a long is an integer without bounds. Log/Values, Log/Adds and
--   Log/Threads prove the counts, Log/Maps and Log/Report the maps, Log/Order compare_by_value and
--   Log/Line what a line adds. Log/Program has select_top_n and main, over qsort, atoi and opendir as
--   parameters; Log/Program/Permuted, Log/Program/Ranking and Log/Program/Top are about what is printed.
--
-- Hash: HW03-Hash/src/hash.c, a hash table of words with open addressing. Hash has every function;
--   an undefined step (a signed overflow, a slot outside the array) gives no result. The search for
--   a free slot has as many rounds as there are slots, which visits each once. Hash/Overflow is about
--   hash_string, Hash/Rehash has the invariant of a table and rehash, Hash/Add and Hash/Remove the
--   two operations; remove_element tells an overflow from a read outside the array, and looks for the
--   address of a key, which is a parameter.
--
-- Crc: HW09-CRC32/src, the CRC-32 of a file. Crc has the table of crc32.h, crc32, the loop of
--   get_crc32 over mapped blocks of 16 MB, with a round for each byte and two more, of which far
--   fewer are used, and the exit status of main.c. Whether mmap succeeds at an offset is a parameter.
--   Crc/Bits has the laws of the exclusive or, Crc/Table compares the table with the division bit by
--   bit, and Crc/File puts the blocks together.
--
-- Nodes: HW07-ASM/src/main.c, a linked list of numbers and the text that main writes; the nodes do
--   not change, so a chain of them is a list. Nodes/Output proves what the text is.
--
-- Server: HW12-FileServer/src/server.c, the file server over epoll. Server has the slots of the
--   connections, indexed by descriptor, the body of the event loop, the request buffer of 8192 bytes,
--   the reading of a request and its answers; what accept and recv give are events, and the files are
--   a parameter. Server/Words and Server/Reply are about one request, Server/Requests about a request
--   that comes in pieces, Server/Slots, Server/Steps and Server/Isolation about connections side by
--   side, Server/Overflow about descriptors without a slot. A round of send_file's loop takes
--   a byte at least, so it has as many rounds as the file bytes. Server/Setup has main.c and the calls
--   that set the socket up, over what they give, Server/Setup/Argument the reading of the address and
--   the port and Server/Setup/Sockets the whole start.
--
-- Ipc: HW08-IPC/src, a server that tells the size of one file. Ipc has rstrip, the messages in their
--   buffer, create_server over what its calls give, the loops of start_server over lists of what accept
--   and read give, and main. Ipc/Strip, Ipc/Message and Ipc/Main are about these. Ipc/Daemon has
--   daemonize over a table of descriptors, which is a parameter, and Ipc/Daemon/Descriptors says what
--   they stand for.
--
-- Timer: the timer of pomodoro/src/main_window.c: update_timer, which the timeout calls once a second,
--   and the start button. Timer/Phases proves how long the phases last.
--
-- Settings: pomodoro/src/settings.c and the handlers of main_window.c that change settings, with
--   GLib's key files as a parameter, which gives back only strings that are UTF-8. Settings/Persist is
--   about what the next start finds.
--
-- Logger: HW06-Logger/src, a logger with one stream and one lock in static variables. Logger has its
--   three functions and main.c; a closed stream and a destroyed lock are states, and using one gives no
--   result. Logger/Calls is about sequences of calls.
--
-- Stats: HW15-DB/src/main.c, the average, extremes, sum and variance of a column of a database. Stats
--   has every function; the double numbers, strtod and SQLite are parameters, the numbers with what
--   IEEE 754 says of their order. Stats/Least is about the extremes, Stats/Passes about the two passes,
--   Stats/Main about the whole program.
--
-- Browser: the walk of HW05-Gtk/src/dir_view.c over the directories below the working directory, over
--   what opendir and stat say. Browser/Walk compares the rows with the tree of entries; the fuel is one
--   call for each folder of the longest chain of folders, and one more. The walk follows links to
--   directories as stat does, so the tree is what stat shows. The widgets are not modelled.
--
-- Weather: HW04-Weather/src, which prints the weather at a place. Weather has every function, over the
--   pieces in which libcurl hands over the answer and the lookups of json-c. Weather/Answers is about
--   what is printed for an answer in pieces.
--
-- Telehack: HW11-Network/src, which has a message drawn by a service. Telehack has read_msg and fetch of
--   convertor.c over the lists of bytes that read gives, and Telehack/Reads says what is printed of a
--   message. Telehack/Client has print_message and main.c over what getaddrinfo, socket and connect give;
--   Telehack/Client/Messages is about the addresses and the two messages, Telehack/Client/Dialogue about
--   the whole program, and Telehack/Client/Sockets about the sockets that it opens and closes.
--
-- Not modelled: HW16-Cube, the windows and notifications of pomodoro, which are mostly calls of the
--   system and of libraries, and HW13-strace, which has no code.
--
-- Prelude has the names that all modules share: Boolean tests, lists with native indices, signed
-- integers and texts. Tests has a run of each theorem at a concrete input.
pub mod Prelude
pub mod Game
pub mod Log
pub mod Logger
pub mod Nodes
pub mod Timer
pub mod Settings
pub mod Stats
pub mod Browser
pub mod Crc
pub mod Hash
pub mod Mouse
pub mod Ipc
pub mod Server
pub mod Telehack
pub mod Weather
pub mod Zip
mod Tests
