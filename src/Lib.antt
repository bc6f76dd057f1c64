-- ===== src/Lib.antt =====
-- Verification of parts of the style9 kernel: memory from boot to a task's address map, the metadata
-- transactions of the filesystem and its block cache, two locks, the log ring and the tables of port
-- names.
--
-- Base         C's tests, arrays and 64-bit words over the native numbers.
-- Memmap       kern/memmap.c: `Boot.init` (memmap_init) reads the boot loader's map from the bytes of
--              memory with `parse_mb1`, `parse_mb2` or `parse_pvh`, then `sort` and `recount`.
-- Pmm          vm/pmm.c: the frame allocator. `Pmm.Init.init` (pmm_init) makes its first state from the
--              memory map; `alloc_page`, `alloc_pages`, `free_page`, `free_pages` and `page_ref` are the
--              functions of those names. An address is a number and PA_INVALID is 0; a failed KASSERT or
--              a panic is `none`. Pmm.Invariant says what holds between two calls.
-- VmObject     vm/vm_object.c: the reference counts that the entries of a map hold, and VmObject.Pager,
--              over the files of fs/fs.c, vm_object_file and vm_object_page.
-- VmMap        vm/vm.c: a task's map. `enter_backed`, `lookup`, `clip_locked`, `remove`, `reset`,
--              `find_space` and `snapshot` are vm_map_enter_backed and so on. The linked list of entries
--              is a list in the same order. VmMap.Lookup gives the abstract view: the page at an address.
-- FsTxn        fs/fs_txn.c: `begin`, `get_into` (txn_get), `dirty`, `commit` and `abort`. The block
--              reads and writes of fs/apfs/apfs.c are the record `Device`; FsTxn.Commit.IsDevice is what
--              is relied on.
-- Witness      kern/witness.c: `acquired` and `released`, that every spinlock calls, on the tables as the
--              calling CPU sees them.
-- Mutex        kern/mutex.c: the linked list of waiters, and the steps of lock, trylock and unlock.
-- Klog         mach/klog.c: the ring of log lines, `klog` and klog_snapshot_tail.
-- Bio          fs/bio.c: the block cache. `lookup`, `finish`, `patch` and `invalidate_drive` are what
--              page_get, bio_write and bio_invalidate_drive do under bio_lock. Bio.Serial composes them
--              as bio_read and bio_write for a thread that none interrupts; Bio.Concurrent is a step
--              relation for any interleaving, in which the driver moves one sector at a time, may give
--              up on a write after any of them, and is also used around the cache. The
--              driver of dev/ata_drv.c is the record `Driver`, and Bio.Page.IsFaithful what is relied on:
--              an answer of 0 means that the sectors asked for were read, or written.
-- PortRights   mach/port.h: the masks of rights, with C's operations on them, and the error codes.
-- PortSpace    mach/port_space.c: the table of a task's port names. `install`, `lookup`, `drop`,
--              `drop_one_right`, `port_type` and `destroy` are space_install and so on. What they do to
--              ports after dropping ps_lock is a list of calls; PortSpace.Balance counts the
--              references in it.
--
-- Memmap feeds Pmm.Init, VmMap counts references in VmObject; the others stand alone. A function that
-- holds its lock throughout is one step, with its static variables as a record; what kmalloc answers is
-- an argument `mem`. Arithmetic on 64-bit words wraps, by add64, sub64 and round_up.
--
-- Loops are structural: over the list, or over the number of rounds that the loop's bounds give. Fuel
-- is used in Pmm.find_run, which is given one round more than there are frames, each round moving the
-- search on by one frame at least, in Mutex.unbind_from, which takes one round for each waiter, in
-- the loops of Bio, with a round for each sector, of which each round moves one at least, and in the two
-- walks of Memmap.Boot, with a round for every four bytes of a Multiboot1 map, whose entries take that
-- many, or for every eight of a Multiboot2 block; a tag there that takes none is a case of its theorem.
--
-- Not modelled: printing and statistics; page faults, also in memmap_init's reading of memory;
-- vm_map_release past its range check, vm_map_fork_share, vm_map_image and vm_fault, which need the
-- page table of arch/amd64/pmap.c; the scheduler's part in a mutex; ports and sets themselves,
-- messages and notifications; tasks, the filesystems, devices and user programs.
pub mod Base
pub mod Memmap
pub mod Pmm
pub mod VmMap
pub mod VmObject
pub mod FsTxn
pub mod Witness
pub mod Mutex
pub mod Klog
pub mod Bio
pub mod PortRights
pub mod PortSpace
