-- ===== src/Lib.antt =====
-- DynaSwap: a Linux block device for swap whose backing file grows as the device fills.
--
-- The repository holds two drivers and a service; both drivers and the core of the service are
-- modelled here. The second driver is src/driver/v2. A request enters it through queue_rq of
-- device.c, waits in an ordered work queue and is carried out by perform_rq, segment by segment:
-- context.c finds the slot of a sector, or reserves one, through the slot manager of fs/slot.c,
-- and reads or writes the page of that slot in the backing file through fs/storage.c. The slot
-- manager knows which slots are in use by a bitmap and which sector has which slot by the two
-- hash tables of utils/bimap.c. When too many slots are in use, context.c puts an extension of
-- the file into the same queue or carries it out at once.
--
-- The first driver, src/driver/src, does the same with one table: dynamap.c keeps for each page
-- of the device its slot, in directories of 512 entries, gives slots back when sectors are
-- discarded, and grows the file in a work queue; dynaswap_drv.c carries requests to it.
--
-- The service, which is older, adds and removes whole swap files: main of dynaswap.c polls the
-- memory pressure through sysstate.c in a loop and adds a chunk under strain or gives one back,
-- through the chain of chunks of swaphandler.c.
--
-- * Base holds what the parts share: tests, lists, the C integers, counting in a bitmap, and
--   numbers in texts.
-- * V2/Kernel is the kernel as the driver uses it: a record of functions that stand for the
--   calls of the kernel, and a second record with what their documentation promises. Theorems
--   that rely on the kernel take the second record; V2/Tests/Sim gives a kernel for which it
--   holds.
-- * V2/Bimap is src/driver/v2/utils/bimap.c. A chain of a hash table is a list, an entry carries
--   its address. Entries relates the tables to one list of entries, Lookup is about the two
--   searches, Destroy about freeing, Contents about the multiset of the entries. Threads is
--   bimap_insert cut at its locks: Alone is about a call with no other in between, Steps about
--   one step, Order about calls for different sectors, Race about two calls for one.
-- * V2/Slot is src/driver/v2/fs/slot.c. Valid is the invariant of the slot manager, Extend is
--   about growing, Reserve about handing out a slot.
-- * V2/Storage is src/driver/v2/fs/storage.c: one page of the file for each slot (Pages),
--   opening and closing the file (Lifetime).
-- * V2/Context is src/driver/v2/context.c. View says what the device holds in a sector, Same
--   what leaves it as it is, Write is about dynaswap_write, Growth about dynaswap_extend, Room
--   about the slots that writes to whole pages take.
-- * V2/Device is the first half of src/driver/v2/device.c: requests (Requests), the work queue
--   (Queue), sequences of arriving requests and runs (Events), and running the queue until it is
--   empty (Drain). History is the disk that the device promises, as a relation between requests
--   and answers, and Traced measures the device by it over any sequence of events. Reference is
--   the disk that never fails, which stores single pages; Granted and Perfect are about a kernel
--   that grants what it is asked for.
-- * V2/Disk is the second half of src/driver/v2/device.c, with its unwinding; V2/Main is
--   src/driver/v2/main.c and the setup in src/driver/v2/common.c and src/driver/v2/context.c.
--   Init is about initialisation, Exit and Leaving are about the exit, the second with work that
--   waits; Inverse is about the two tables of the bimap at work; Loaded is the state that the
--   device starts from, Serving the loaded driver with the requests it serves.
-- * V2/Debug is src/driver/v2/fs/slot_debug.c and src/driver/v2/fs/storage_debug.c: which debug
--   files there are and what they show; Shown is about their figures.
-- * V1/Dynamap is src/driver/src/dynamap.c. Valid is the invariant of the table, View what the
--   device holds and how it is read, Write, Grow and Discard are about the operations of these
--   names.
-- * V1/Cleanup is dynamap_cleanup of src/driver/src/dynamap.c and V1/Setup is dynamap_init, with
--   a ledger of what they take and give back. Account is about the pages in the tables, Balance
--   about the parts of the teardown, Init about the teardown as a whole and the loop over the
--   directories, Stages about the parts of the setup, Outcome about its three ends, Fresh about
--   the map that it leaves.
-- * V1/Threads is dynaswap_write of src/driver/src/dynamap.c cut at its locks. Steps is about
--   one step, Holds about the writes that run, Order about any interleaving.
-- * V1/Driver is the work of a request in src/driver/src/dynaswap_drv.c. Kept is what every
--   request keeps; Queue has the steps by which requests arrive and run, Served what holds after
--   any of them. History is the disk that the driver is, as a relation between requests and
--   answers, Traced measures any sequence of the steps by it.
-- * V1/Module is the rest of src/driver/src/dynaswap_drv.c: loading and unloading. Ends lists
--   how loading can end, Load is about unloading, After and Outcome are about loading, Serving
--   is about the loaded module with the requests it serves, Traced about the disk that it is.
-- * Service/Mkswap is mkswap of src/service/src/swaphandler.c, a file being its bytes by offset;
--   Layout is what the kernel finds in it.
-- * Service/Swap is the rest of src/service/src/swaphandler.c, with the calls made on the system
--   and their results as a list; what swapoff and remove will return is a function in the state.
--   Stack is the invariant of the chain, Ledger counts the calls and the files that are on after
--   them, Paths is about the names of the files.
-- * Service/Monitor is the loop of src/service/src/dynaswap.c with the polling of
--   src/service/src/sysstate.c; Kept is what the loop keeps. The thresholds and the path are
--   arguments.
-- * Service/Config is the configuration file of src/service/src/config.c, once libconfig has
--   read it; Accepted says which files are taken in the terms of the code's tests, Taken what a
--   file must say, key by key, Sizes what the text of a size must be.
-- * Service/Pressure is init_psi and read_psi of src/service/src/sysstate.c, with strstr and
--   sscanf as far as they are used; Printed is about the text that the kernel prints.
-- * Service/Start is main of src/service/src/dynaswap.c from the arguments on, with the command
--   line of src/service/src/config.c. Init says when the loop is entered, Program how it goes
--   on.
-- * Service/Signals is the signal handler of src/service/src/dynaswap.c at any point of an
--   allocation or a release; Left is about what it leaves.
-- * Service/Process is what the service holds besides its chunks, from src/service/src/config.c
--   and src/service/src/sysstate.c, and the whole of its takedown; and poll_mem_usage, which
--   nothing calls.
-- * V1/Tests, V2/Tests and Service/Tests hold runs on small inputs.
--
-- State is passed explicitly: SLOT_MANAGER is the record SlotManager, the driver with the kernel
-- behind it is the record Driver, the queue with the answers given so far is the record Device.
-- A function that stores through a pointer returns the stored value as an option. A status is a
-- signed integer, a size or an index is a native number with the wrap-around of 64 bits written
-- out.
--
-- In V1/Dynamap and V1/Driver the semaphore of the table is left out: each function runs alone.
-- V1/Threads has writes, extensions and discards that overlap, as long as no page is discarded
-- while a transfer to it is about to happen; V1/Tests/Overlaps shows what happens otherwise. In
-- V2/Bimap each function runs as one step, since the ordered work queue runs one function at a
-- time; V2/Bimap/Threads has insertions that overlap. Where the code itself retries for other
-- processors (extend_slots), what they store is an argument. Running the queue takes as fuel the
-- number of runs; Drain says how many are enough. The loop over a discarded range takes as fuel
-- the number of its pages. The loop that frees the chunks takes as fuel the length of the chain.
-- Floating point is a record of operations with no laws. The loop over the directories in
-- V1/Setup is recursion on their number. The loops of strstr and sscanf are recursion on the
-- text and on the format. Messages and log macros are not modelled.
pub mod Base
pub mod V1
pub mod V2
pub mod Service
