-- ===== src/Lib.antt =====
-- streamio: drivers for a DMA stream and a register file of an FPGA, a user-space library over them
-- with a local and a network backend, and the server of the network backend.
--
-- The parts, from the kernel up. A DMA channel (driver/stream_dma) keeps a table of 32 buffers with a
-- status each and hands them to the DMA engine. A register file (driver/axi_ctrl) is read, written and
-- mapped. The library (lib/bbio, lib/buffer) holds devices in a context; its local backend maps the
-- driver's buffers and hands them out as a ring, its network backend sends the same calls over a
-- socket. The server (userspace/io_backend) answers them with local devices of its own.
--
-- Files:
-- Common      shared names and lemmas: Boolean tests, lists with an index, words as bytes.
-- Dma         driver/stream_dma/dma_tx.h and streamio-drv.c. `Channel` is struct dma_proxy_channel;
--             start_transfer, wait_for_transfer and ioctl are functions on it. Dma/Files: local_open,
--             release, buffer_write and the polls, and with `Event` and `step` what can happen to
--             a channel.
--             Dma/Setup: cdevice_init and create_channel. The other files of Dma hold proofs,
--             Dma/Contents those of what the driver's own code does to the bytes in the buffers.
-- Local       lib/bbio/src/bbio_backend_local.c. `LocalBuffer` is local_buffer_d, beside the driver's
--             channel that its mapping reaches. Local/Window: registers, and the resources of
--             opening and closing, with lib/buffer/buffer.c. Local/Ring, Local/Drain and Local/Contents
--             hold proofs.
-- Regs        driver/axi_ctrl/streamio-ctrl-drv.c: the register file and its file operations;
--             Regs/Setup is its probe and its removal.
-- Context     lib/bbio/src/bbio_core.c and bbio_utils.c: contexts and their devices.
--             Context/Refine holds the specification, a bounded list.
-- Remote      lib/include/bbio/bbio_backend_net.h, with both ends of a connection: the client,
--             lib/bbio/src/bbio_backend_net.c, and the server, userspace/io_backend/src/
--             io_backend_call.c and io_backend.c. Remote/Mapped: register calls. Remote/Session:
--             opening a device, and a session of registers. Remote/Upload: the loops of the server
--             that receive a write stream, over what becomes of the bytes. Remote/Repack packs them
--             into a list of buffers, Remote/Deliver puts them into the ring of a local device and
--             starts its transfers. Remote/Download: the read stream with the client's basic read,
--             Remote/Chunks the read that keeps count of a packet. Remote/Serve: the server's read
--             loop over a device, and a session of a stream device. Remote/Control and Remote/Blocks:
--             the thread for control bytes and client_cmd_write_stream, which nothing starts or calls.
--             The server's side of the sessions, client_mapped_channel and client_stream_channel, is
--             called in a comment only; it is modelled as what the client of this code was written
--             against.
-- Backend     lib/include/bbio/bbio_h.h and bbio_core.c: the operations that a backend puts into a
--             device, and the calls of the core through them. `Registers` is what a program may rely
--             on; Backend/Local and Backend/Net keep it for both backends, Backend/Writes uses it.
-- Server      userspace/io_backend/src/io_backend.c: the list of contexts and the task of a
--             connection. Server/Threads: the tasks on the threads of the pool, as a step relation
--             in which each access to the list is a move of its own. Server/Main: the options and the
--             loop that accepts connections, each of which a thread of the pool gets as a task.
-- App         userspace/test_app/src/txrx_test_thread.c: the thread that sends numbered words over the
--             ring, and the comparison of the one that receives; App/Session is the program, with the
--             thread that sends. App/TxTest: main_tx_test of userspace/test_app/src/tc_test.c, the program
--             that its main runs. App/LoopTest: main_txrx_test there, which sends
--             and receives. App/File: how main_tx_file there reads the numbers
--             of a file, with sscanf and malloc as parameters; App/File/Output: its options,
--             arg_parse.c, and the file that it writes. Both are called in comments only.
--             App/Validate and App/RxTest: userspace/io_client/src/client_test.c, validate_data and the
--             programs main_rx and main_tx, whose calls in main stand in comments or are missing.
-- Each part's Tests file runs it at concrete states.
--
-- How the code is modelled. The state is a record, an operation a function to an Option or a pair;
-- `none` is undefined behaviour: an access outside of a table, a null or a freed pointer. What the
-- kernel, the DMA engine and the wait queue answer are arguments, so a theorem holds for all
-- answers that it does not restrict. Memory is there when it is asked for, but for the buffers of
-- a read and a write of the register file, its cdev, and the mappings of the local backend, which
-- are arguments too. What runs while a call sleeps is a list of interrupts among its arguments. A
-- counter of 32 bits has its wrap-around written out. A socket is a list of segments and then an
-- orderly close; `recv` gives one segment or a part of it. A failing `recv` is not modelled.
-- Threads are interleaved: a run is a sequence of moves, each of any one thread, and the scheduler
-- is what chooses them. A context is known there by its creation, not by its address, which the
-- allocator may give again.
--
-- Bounds and fuel. Loops over the 32 buffers, over a word count or over devices recurse on the
-- rounds that are left. The loops of the network that a peer can prolong take fuel: the client's
-- read of a packet, for which its bytes and one more are enough, and the server's loops over
-- frames, for which the bytes that the client sends and one more are enough, as they are for its
-- control thread. The loop that accepts connections recurses on the rounds that the kernel
-- answers. A run that needs more gives `out_of_fuel`. The packing of a write stream takes the size
-- of a buffer as a parameter; the program sets it to 131072, and so does Remote/Deliver.
--
-- Not modelled: the copy of the thread pool library; driver/stream_dma_enhanced and
-- lib/bbio/src/bbio_net_core.c, which do not compile; prints; the DMA driver's probe and removal,
-- internal test and mmap; the rounds of main_tx_file over the hardware; of the thread that
-- receives in txrx_test_thread.c, all but its comparison; the thread that prints how a stream
-- goes; and client_cmd_open, client_cmd_mmap, client_cmd_ioctl and the burst calls of the server,
-- which nothing calls.
pub mod Common
pub mod Dma
pub mod Local
pub mod Regs
pub mod Context
pub mod Backend
pub mod Remote
pub mod Server
pub mod App
