-- ===== src/Lib.antt =====
-- CraftOSOS: ComputerCraft as an operating system for the PC.
--
-- The program is a Lua interpreter on bare metal with the libraries of ComputerCraft. A loop in
-- main.cpp resumes the running program with the next event, which `getNextEvent` of os.cpp takes
-- from a queue (queue.c) after waiting for the keyboard and the timers. Each event has its
-- parameters on a thread of its own, in a second queue that must stay aligned with the first. The
-- libraries are tables of handlers that read their arguments from a Lua stack and push results.
--
-- Files:
-- Base: shared lists, options, integers and bit operations (Base/Bits) over native numbers.
-- Lua: the C API of Lua (lua/), as far as the handlers use it. The interpreter is a copy of Lua
--   5.1.5 and is not modelled: `Api` holds the conversions with their documented behaviour, and
--   Lua/Plain is one instance of it.
-- Bit: the `bit` library (bit.h). An `unsigned int` is a number below 2 ^ 32; a shift by 32 or more
--   is undefined behaviour, `none`. Bit/Laws and Bit/Shifts hold its proofs.
-- Queue: the linked queue (queue.c, queue.h) on a heap, with faults for bad pointers. The address
--   that `malloc` returns is an argument. Queue/Chain says which heaps are queues, Queue/Push,
--   Queue/Pop and Queue/Observe are about single calls, Queue/Refine about sequences of calls. The
--   loop of `queue_size` has fuel; one round more than there are nodes is enough.
-- Keyboard: `convert_ps2_code`, `ps2tocc`, `get_scancode` and `getkey` (os.cpp). The ports and the
--   timers that fire are input, one `Poll` for each round of the wait. Keyboard/Modifiers,
--   Keyboard/Codes and Keyboard/Wait hold the proofs.
-- Os: the event queue, `getNextEvent`, `os_queueEvent` and `timerEvent` (os.cpp). The queues of
--   events and timers are lists here, as Queue/Refine allows; the parameter threads are lists of
--   values. The stack that holds them, which the code never checks, has the 20 slots that Lua promises
--   (LUA_MINSTACK; lua/lstate.c allocates 45 without promising them); a push behind them is undefined
--   behaviour, `crash`. `getNextEvent` has fuel; the events, timers and key codes that are there or still to
--   come bound the rounds of its loops. Os/Pending, Os/Filter and Os/Waiting hold the proofs.
-- Display: the globals of term.cpp and `blit_line`, `blit_screen` and `redrawCursor`, into four planes
--   of pixels and a list of what is done to the hardware. The bitmap that `blit_line` allocates is a
--   function of row and column. The font is a parameter here. An access out
--   of bounds is `none`. Display/Bounds and Display/Merge hold the proofs.
-- Term: the handlers of the `term` library but those of the palette (term.cpp); `(int)log2` is a
--   parameter. Term/Text, Term/Write, Term/InColors, Term/Scroll, Term/Clear, Term/Cursor and
--   Term/Colors hold the proofs.
-- Fat: the geometry of a FAT volume, `cl_to_sector`, `next_cluster` and `init`
--   (includeos-patch/fat.hpp, fat.cpp). The device is a parameter, a function from a sector and a
--   count to bytes; so is where the fields of the first sector stand, which IncludeOS defines.
--   Fat/Chain and Fat/Geometry hold the proofs.
-- Directory: `int_dirent` (fat.cpp) on the slots of a cluster; what the structs of IncludeOS give for
--   a slot are fields of it. Directory/Names, Directory/Scan and Directory/Layout hold the proofs.
-- Volume: `int_ls` with its cache, `traverse`, `ls` and `stat` (includeos-patch/fat_sync.cpp). A
--   path is the list of its names. The loop of `int_ls` has fuel; the number of clusters of the
--   directory is enough. Volume/Names, Volume/Listing, Volume/Match and
--   Volume/Walk hold the proofs.
-- Reading: `read` of a file (fat_sync.cpp), whose loop runs over the clusters it has computed.
--   Reading/Parts and Reading/Files hold the proofs.
-- Main: `main2` (main.cpp): reading bios.lua, and the loop around `getNextEvent`. The program is a
--   parameter, a function from the values it is resumed with to how it stops; what its handlers
--   change in the meantime is part of that, within the room of the parameter stack. The rounds and sessions have bounds. Main/Bios and
--   Main/Rounds hold the proofs.
-- Library: `load_library` (lib.c, lib.h), the tables `bit_lib`, `fs_lib`, `os_lib`, `rs_lib` and
--   `term_lib` of bit.h, fs.cpp, os.cpp, redstone.h and term.cpp, and the order in which main.cpp
--   loads them. Library/Load and Library/Program hold the proofs.
-- Files: `basename`, `dirname` and the handlers of the `fs` library on paths and on what `stat`
--   gives (fs.cpp). The file system's `stat` and `ls` and the sort are parameters here.
--   Files/Paths and Files/Lists hold the proofs.
-- Handle: the handles of fs_handle.c that read, on a `FILE` given by the bytes in front of its
--   position and behind it. What memory holds behind a string is a parameter. `line_loop` has fuel;
--   one more than the bytes that are left is enough. Handle/Lines holds the proofs.
-- Disk: `init_fs`, `internal_init` and `partitions` (includeos-patch/disk.cpp, disk.hpp), whose
--   callbacks are results. Disk/Detect holds the proofs.
-- Font: the pixels of the glyphs (font.h), as numbers of 16 hexadecimal digits, one for each line of
--   the source (Font/Low, Font/High). Font/Glyphs holds the proofs.
-- Vfs: the tree of mounted objects (includeos-patch/vfs.hpp). A pointer to an entry is the path of
--   names to it; a C++ type is a name with its `const`; which types derive from `FD_compatible` and
--   the disks are parameters. Vfs/Global has the struct `VFS`; Vfs/Siblings, Vfs/Create, Vfs/Insert,
--   Vfs/Mount, Vfs/Typed and Vfs/Dirents hold the proofs.
-- Ide: the driver of the IDE disk (includeos-patch/ide.cpp) with its queue of requests. What the
--   controller's ports give is a parameter, and so is what a callback does with the driver; what is
--   written to the ports is a list (Ide/Io). The wait for a busy controller has fuel; a bound on the
--   reads of the status for which it stays busy is enough. The loop of `irq_handler` has fuel; the
--   sectors left in the queue are enough. Ide/Sync has `read_sync`, `write_sync` and the constructor;
--   Ide/Status, Ide/Buffers, Ide/Serve, Ide/Registers, Ide/Requests and Ide/Answers hold the proofs.
-- Async: `int_ls`, `traverse`, `ls`, `read`, `stat` and `cstat` of includeos-patch/fat_async.cpp. What
--   a callback is given is a result; `File_system::stat` is a parameter. The loop of `int_ls` has
--   fuel, a round for each sector that it reads. Async/Lookup and Async/Reads hold the proofs.
-- Computer: the handlers of os.cpp for the label, the day, the clock and the power, and the stubs of
--   redstone.h. The calendar of the C library is a parameter. Computer/Label holds its proof.
-- Not modelled: the strings that a queued name or the label points to are taken as values, so a string
--   that Lua collects meanwhile is not seen; messages that are printed, except that the warning about
--   misaligned parameters is a flag. The palette and the set-up of the screen, opening and changing
--   files through the C library (fs.cpp, fs_handle.c), the functions of os.cpp that compute with
--   floating-point numbers (startTimer, time, epoch) and the start of the drivers in main.cpp are not
--   part of the development; nor are the Lua programs of rom/ and bios.lua.
pub mod Base
pub mod Lua
pub mod Bit
pub mod Queue
pub mod Keyboard
pub mod Os
pub mod Display
pub mod Term
pub mod Fat
pub mod Directory
pub mod Font
pub mod Volume
pub mod Reading
pub mod Main
pub mod Library
pub mod Files
pub mod Disk
pub mod Handle
pub mod Vfs
pub mod Ide
pub mod Async
pub mod Computer
