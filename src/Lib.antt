-- ===== src/Lib.antt =====
-- PureVisor, a type-1 hypervisor in C: its cluster layer, its storage stack with consensus,
-- its page allocator, its virtual disks and its extended page tables.
--
-- Cluster (src/cluster). `node.c` keeps the nodes and the cluster they belong to, `vm.c` the virtual
-- machines of a manager, `scheduler.c` places machines on nodes. They share objects by address: a
-- machine points at the node it runs on, the manager at its local node, the cluster at its members.
-- Cluster/World.antt is that store: a function from addresses to nodes and one from addresses to
-- machines, with address 0 for NULL, and the lists as lists of addresses, newest first.
--   Cluster/Node        a node and its health check          src/cluster/node.c
--   Cluster/Membership  joining, leaving, election, scans    src/cluster/node.c
--   Cluster/Vm          life cycle and migration             src/cluster/vm.c
--   Cluster/Scheduler   feasibility, scores, placement,
--                       rebalancing, evacuation              src/cluster/scheduler.c
-- Each operation is a function of the world that returns what the C function returns; a return value
-- of 0 or -1 is a Boolean. A callback that is registered is recorded in a log. Time stamps, and whether
-- an allocation finds memory, are arguments.
--
-- Storage (src/storage). A block device is called through the block layer, which hands a request to its
-- driver and waits; a RAM disk is one driver, a volume of a pool another. A pool cuts its devices into
-- extents of 4 MB, and a volume maps its extents to the pool's.
--   Storage/Block          requests, the registry             src/storage/block.c
--   Storage/MemBlock       the RAM disk                       src/storage/memblk.c
--   Storage/Pool           extents, replicas, devices         src/storage/pool.c
--   Storage/Volume         the driver of a volume             src/storage/pool.c
--   Storage/Volume/Manage  creating to destroying volumes     src/storage/pool.c
--   Storage/Raft           consensus: the node's state        src/storage/distributed.c
--   Storage/Raft/Handlers  its messages and its clock         src/storage/distributed.c
--   Storage/Distributed    replicated writes                  src/storage/distributed.c
-- The driver below the block layer is a parameter, a function of its own state; where a theorem needs a
-- real one it is the RAM disk. A driver that accepts a request and never completes it makes the caller
-- spin, which is an outcome of its own and not a result.
--
-- Consensus is the state of one node; an Event is a message that arrives, a tick of the clock, an entry of
-- a client or a change of the cluster, and Reaches (and Polls, which says who asks for votes) is the
-- relation of what a sequence of them leads to. What a node sends and what it hands to the storage are
-- logs in its state, the latest first. The time stamp counter is an argument. raft_init is modelled past
-- the allocation of the log, whose failure dist_storage_init has.
--
-- Virtual devices (src/virtio). A guest shares a queue of descriptor chains with a device: it adds heads to
-- the available ring, the device pops them, walks the chains and pushes completions to the used ring.
--   Virtio/Queue   the operations of a queue                   src/virtio/virtio.c
--   Virtio/Device  the device and its registers                src/virtio/virtio.c
--   Virtio/Disk    requests to a block device                  src/virtio/virtio_blk.c
-- A queue's rings are an argument beside it, since the guest writes them too. The rest of the guest's memory
-- is bytes by address; a request takes every descriptor from there at the moment it needs it, so a buffer
-- may cover the descriptor table, but buffers do not overlap the available and the used ring. The loop over
-- a chain has no bound in the code: it takes rounds, and gives no result when they are used up.
--
-- Virtual memory (src/vmm). The extended page tables of a guest are four levels of tables; a table stands at
-- its physical address in one map from addresses to entries, and an entry is its 64-bit number.
--   Vmm/Ept        walking, mapping, translating              src/vmm/ept.c
-- The pages that the allocator hands out for tables are a list.
--
-- Memory (src/mm). The page allocator keeps free blocks of 2^order pages in lists by zone and order.
--   Memory/Pmm             allocating and freeing             src/mm/pmm.c
--   Memory/Pmm/Init        start-up from the memory map       src/mm/pmm.c
-- Pages are numbers, a doubly linked free list is the list of its pages, and the lock is left out. The
-- loops on the order run for the orders that are left, of eleven.
--
-- Types and structs stand in the headers of include/cluster, include/storage, include/virtio,
-- include/vmm and include/mm. Strings are lists of
-- character codes, and numbers carry their wrap-around: `add32` and its kin reduce modulo 2^32 or 2^64.
-- Every loop runs over a list or an array of known length, so it is recursion on the list or on the
-- rounds that are left; the loop of `pool_destroy`, which ends when no volume is left, takes as many
-- rounds as the list is long, and is shown to empty it. Reads past an array's length do not occur where
-- the invariants hold; the arrays of fixed size in the structs are functions or lists without a bound.
--
-- Base holds what the parts share: Boolean tests, lists, machine words, stores, linked lists by address
-- and bytes. The modules below a component are named for what they prove; Tests are runs at small
-- worlds.
--
-- Not modelled: the heap and the kernel's page tables (src/mm), the string library, the virtual console
-- and network devices, the virtual CPUs and their exits (the rest of src/vmm), PCI, the management interface, and
-- what is only console output or hardware set-up (src/boot, src/kernel). UUIDs are arguments.
pub mod Base
pub mod Storage
pub mod Virtio
pub mod Vmm
pub mod Memory
pub mod Cluster
