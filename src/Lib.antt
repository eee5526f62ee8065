-- ===== src/Lib.antt =====
-- PicoSDEmu: the portable core of an SD card emulator that speaks SPI to its host and keeps its blocks
-- behind a USB serial link.
--
-- The program has a card half, a link half, and the host at the other end of the link. The card half takes bytes from the SPI bus: the framers cut them into
-- command frames and data blocks, the command model runs the card's state machine over a storage, and
-- the engine joins the two and lays out the bytes of the answers. The link half fetches and stores
-- blocks over a text protocol: a client that has one request pending at a time writes and reads lines,
-- a deadline, a retry controller and a retained operation stand around it, and a coordinator drives
-- them. A write-through backend puts a pool of sectors over the coordinator; the firmware's service keeps
-- its session alive, and a storage over the service is what the card's model reads and writes. The host
-- answers the lines of the client from an image file. The ring queue hands bytes over between the two
-- sides of an interrupt. Whole media are copied under an arbiter that gives a backend to one side at a
-- time.
--
-- Files, and the code they model (paths under shared/protocol, unless they start with host or firmware):
--   Queue          include/picosd/protocol/fixed_ring_queue.hpp: FixedRingQueue. Inv has its invariant,
--                  Refine the bounded FIFO that it implements.
--   Sd/Crc         src/crc.cpp, bit by bit. Residue has the algebra of the checksums.
--   Sd/Command     src/sd_command.cpp: decode_sd_command, make_r1 to make_r7, the data blocks. Frames has
--                  its theorems.
--   Sd/Registers   src/sd_registers.cpp: make_sd_registers. Capacity and Whole have its theorems.
--   Sd/State       src/sd_card_state.cpp: SdCardStateMachine, a transition for each method.
--   Sd/Storage     BlockBackend of sd_card_state.hpp as a record of operations on a state, and
--                  RamBlockBackend.
--   Sd/Framers     src/sd_spi_command_framer.cpp and src/sd_spi_data_framer.cpp, a function for each
--                  method. Stream has what they make of streams of bytes.
--   Sd/Model       src/sd_model.cpp: SdCardModel. `execute` is the handler, cut into the four functions
--                  execute_basic, execute_application, execute_data and block_command, in the order of its
--                  tests. Invariant, Access, Traffic, Uninitialised and Size have its theorems; a
--                  sequence of calls there may refresh the capacity, and others may change the storage
--                  in between.
--   Sd/Engine      src/sd_spi_card_engine.cpp: SdSpiCardEngine. Output has the bound on its answers.
--   Sd/Worker      include/picosd/protocol/sd_spi_target_worker.hpp: SdSpiTargetWorker. Transmit has what an
--                  answer does to the bytes that wait.
--   Cdc/Text       src/text_line.cpp: parse_text_line. Lines describes the lines that are meant.
--   Cdc/Numbers    std::from_chars and std::to_string as the client uses them, in decimal on 64 bits.
--   Cdc/Codec      src/codec.cpp.
--   Cdc/Client     src/cdc_session_client.cpp: CdcSessionClient. Requests and Replies have its theorems;
--                  LineIds reads the id of a request's line back from its text.
--   Cdc/Retry      src/cdc_retry_controller.cpp. Backoff has the closed form of its delays.
--   Cdc/Deadline   src/cdc_request_deadline.cpp.
--   Cdc/Operation  src/cdc_retained_operation.cpp.
--   Cdc/Coordinator src/cdc_operation_coordinator.cpp and src/cdc_storage_status.cpp. Invariant and
--                  Retained have its theorems.
--   Cdc/Pool       include/picosd/protocol/cdc_sector_buffer_pool.hpp: CdcSectorBufferPool. Reserve has which
--                  slot a reservation takes, Fill what a completed read makes the pool hand out.
--   Cdc/Responses  src/cdc_block_response.cpp and src/cdc_media_info.cpp. RoundTrip has that a block that is
--                  written is read back.
--   Cdc/Backend    include/picosd/protocol/cdc_write_through_backend.hpp: CdcWriteThroughBackend; Counters
--                  has its statistics, Traffic and Stuck what an active transfer and a failure refuse.
--                  Medium puts the mounted medium beside it, as steps, and its children prove what is
--                  handed out: Coherent is the invariant, Ends, Answers, Truthful, Starts, Writes and
--                  Calls have that each step keeps it, Cache what follows.
--   Host/Dispatcher host/terminal/src/session_dispatcher.cpp: SessionDispatcher. Safety has what no request
--                  can do to a read-only image.
--   Host/Exchange  the request of the client for a block, and the answer of the dispatcher, as lines with
--                  fields; EndToEnd is the way there and back.
--   Host/Runner    host/terminal/src/session_runner.cpp: process_one_request.
--   Firmware/Service firmware/src/cdc_backend_service.cpp: the static variables as a record, a function for
--                  each of its functions.
--   Firmware/SdBackend firmware/src/cdc_sd_backend.cpp: CdcSdBackend. Truth has what it reads and has
--                  written, Retry what becomes of a read that is retried.
--   Media/Arbiter  src/block_backend_arbiter.cpp: BlockBackendArbiter. Exclusive has its exclusion.
--   Media/Copier   src/block_media_copier.cpp. A statement of the source that follows a poll for
--                  cancellation is a function that the poll is given. Keeps and Whole take a property
--                  through the copy, Complete and Owned apply them; Healthy is about backends
--                  that do not fail.
--   Common         numbers, bytes, words, lists and their lemmas.
--
-- A method that changes an object returns the new object beside its result; an object held by
-- reference is a field or an argument, and is returned. A value with a flag that says whether it is
-- there is an option. A storage is any record of the six operations of BlockBackend on any state: the
-- theorems on the model and the engine hold for all of them.
--
-- Bounds and fuel. Bytes are numbers below 256; the wrap-around of narrower integers is written out.
-- Block addresses, times and counters are natural numbers: the 64-bit additions of the code that can
-- reach the limit are the guarded ones, and their saturation is modelled. The retry loop is structural
-- on the retry index. The printer of decimals has 20 digits of fuel, enough for 64 bits. The parser of
-- lines has the length of its input as fuel: each round takes at least one byte.
--
-- The use counter of the buffer pool wraps at 64 bits as in the code.
--
-- The mounted medium of Cdc/Backend/Medium is a function from addresses to blocks. Its steps take the
-- host to be truthful: the block in an answer to a read is the medium's, a success for a write comes after
-- the write, and the host writes the block of the transfer in flight only while it is in flight. A new
-- medium comes with the call that tells the backend of it.
--
-- Parameters: the image file of the dispatcher, the transport of the runner, the USB device and the clock
-- of the firmware's service, the observer of a copy, and every block storage. The laws that a theorem
-- asks of one are records of hypotheses, and hold of the concrete ones in the tests.
--
-- Not modelled: hardware registers, PIO and USB drivers, the storage on a physical card, the image file
-- and the serial ports of the host, and its command line. The atomic owner of the arbiter is a field, and
-- each of its operations one step. The test in CMD16 that the card is of one of the two types is always
-- true and is left out.
pub mod Common
pub mod Queue
pub mod Sd
pub mod Cdc
pub mod Media
pub mod Firmware
pub mod Host
