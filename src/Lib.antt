-- ===== src/Lib.antt =====
-- The host side of the protocol emulator, a chip of two certified engines behind an SPI port: the
-- Python library that a host drives it with, and the halves of two USB devices that run on the host
-- while the chip keeps the turnaround times.
--
-- How the parts fit. python/protocol_emulator.py is the library: `Host` turns reads and writes of
-- registers into frames, and its methods into reads and writes. python/bench.py and
-- python/pio_upstream.py stream words through an engine's two fifos with it. python/usb_board.py and
-- python/usb_fs_board.py are the boards of the low and the full speed USB device: each has a `Board`
-- that takes the words the engine pushes and says what goes to the tx fifo, and a `service` that moves
-- both over a `Host`. python/ethernet.py builds frames and the writes that send them.
--
-- Which file models what.
-- Base: shared names, lists over native numbers (Base/Lists), shifts and masks as arithmetic
-- (Base/Bits), results and the state monad `M` (Base/Python), slices into pieces
-- (Base/Slices), tables that compute (Base/Table).
-- Host: the registers (Host/Registers, one constant each), the configuration and the pure lists of
-- writes (Host/Config), `Host.write` and `Host.read` over a transport (Host/Port), and every other
-- method over any port (Host/Methods, with the status words in Host/Status). A `Port` is what a method
-- needs of a host; a call takes the state of whatever is behind the port and gives a result and the
-- state after it, also after a raise. Host/Device is an independent description of the chip's SPI slave
-- and of a device with registers; Host/Framing, Host/Memory, Host/Clock, Host/Checker, Host/Stamps and
-- Host/Fifo hold the theorems, each against the device that it describes.
-- Bench: bench.py and the fifo half of pio_upstream.py (Bench), with the theorems in Bench/Collect,
-- Bench/Exchange and Bench/Feed.
-- UsbBoard: usb_board.py. The constants and words (UsbBoard/Packets), the state (UsbBoard/State), the
-- operations of `Board` (UsbBoard/Board, a function for each method and for each branch of `feed`),
-- `load`, `drain` and `service` (UsbBoard/Service). The account of the replies is in UsbBoard/Queue and
-- UsbBoard/Turns, and the relation on boards in UsbBoard/Reach; control transfers are in
-- UsbBoard/Chunks, UsbBoard/Control and UsbBoard/Address, the bytes of a word in UsbBoard/Wire, the
-- reload in UsbBoard/Reload and the loop of `drain` in UsbBoard/Drain.
-- UsbFs: usb_fs_board.py. The packets and records (UsbFs/Packets), the layout of the data memory
-- (UsbFs/Records), `Board` (UsbFs/Board, where none is a `KeyError`), `load`, `restart` and `service`
-- (UsbFs/Service). Theorems: UsbFs/Control, UsbFs/Keys, UsbFs/Places and UsbFs/Start.
-- Ethernet: ethernet.py, the frames that a host builds for the 10BASE-T firmware (Ethernet), with the
-- theorems in Ethernet/Words, Ethernet/Checksum, Ethernet/Datagram and Ethernet/Line.
-- Swd: demo_swd.py, an SWD host on the two fifos (Swd) and the act that it plays (Swd/Act), with the
-- theorems in Swd/Request and Swd/Retry.
-- Blame: the words and the releases of board_blame.py (Blame), with the theorem in Blame/Releases.
-- Carrier: carrier_pins.py, the frames and the `Pins` of the carrier's self-test (Carrier) and
-- the buses on them (Carrier/Buses), with the theorem in Carrier/Frames, whose reader is that of icepi/carrier_check.v.
-- Learn: learn_record.py, the recorder of edges: a line's clock and a poll of the chip (Learn), `load`,
-- `record` and its loop (Learn/Record) and what `run` makes of a recording (Learn/Lines). Theorems:
-- Learn/Clock (the clock kept of an engine), Learn/Poll (against the chip behind its SPI slave),
-- Learn/Ends (the loop returns, a turn of it in Learn/Turns) and Learn/Lines (two lines on one clock).
-- Traffic: the judges of demo/traffic.py: comparisons of a decode with what is expected (Traffic), the
-- lines and the CRC of CAN frames (Traffic/Can) and one channel's levels (Traffic/Levels). Theorems:
-- Traffic/Judges, Traffic/Runs, Traffic/Crc (with the division by CAN's polynomial in Traffic/Divide)
-- and Traffic/Bus.
-- Bridge: bridge.py, a debugger's ops on the SWD host (Bridge), with the theorem in Bridge/Line, on
-- that of Bridge/Handle.
-- I2cTiming: decoders/i2c_timing/timing.py under demo, the checker of an I2C capture against NXP UM10204: the
-- limits, `judge` and `clock` (I2cTiming), the state of a line and `edge` with its cases, and the loop of
-- demo/i2c_timing.py over a capture (I2cTiming/Edges). Theorems: I2cTiming/Judge (what a verdict says of the
-- edges that were sampled), I2cTiming/Fastest (the scan for a run of periods that is too fast), I2cTiming/Order,
-- I2cTiming/Kept and I2cTiming/Capture.
-- Lab: demo/lab.py, the remote lab: the limits on a submitter (Lab), what the worker does with a submission
-- (Lab/Worker) and the comparison of a capture with the model (Lab/Compare). Theorems: Lab/Admitted (with Lab/Count) and
-- Lab/Compare/Align.
-- Snorble: decoders/snorble/pd.py under demo, the decoder of a sensor beacon (Snorble). Snorble/Beacon says what a
-- beacon sends, and Snorble/Stream has the theorem.
-- Plinkoo: decoders/plinkoo/pd.py under demo, the decoder of a packet bus (Plinkoo). Plinkoo/Symbols has a reader of
-- its packets that knows no times; Plinkoo/Bytes, Plinkoo/Kept and Plinkoo/Bits relate what the two
-- keep, Plinkoo/Quiet leaves out the warnings, and Plinkoo/Decoded has the theorem.
-- The Tests modules hold the examples.
--
-- Fuel. The loops of `check`, `edge_stamps`, `now` and `drain` poll the chip without a bound of their
-- own, and take fuel here; each has a theorem that says how much is enough, for a chip that it
-- describes or, for `drain`, for any port whose reads come back. `exchange` and `feed` count polls in
-- the source, and the model counts the same.
--
-- What is a parameter. The transport of `Host` (the SPI master), the chip's verdict on a certificate
-- and its time, the engine's timing and its answers, the Pico's clocks (`ticks_ms`,
-- `ticks_us`) and the tables of usb_device_firmware.py and
-- usb_fs_device_firmware.py, which are generated. Of a job of the lab, what the
-- checker and the bench make of it comes with the job.
--
-- Exact fractions (the times of the I2C checker and of the lab's comparison) are whole numbers here, both sides
-- of a comparison multiplied out; rates are whole numbers of Hz, and the lab's clock counts microseconds.
--
-- What is not modelled. Printing, logs and files, the `machine` module, the native shortcut of `drain`
-- (`drain_quiet`), the collection of garbage in `service`, the
-- parsing of the bridge's lines, the queue and the files of the lab. The recorder of edges locks the heap, so
-- an integer of its loop that does not fit MicroPython's 31 bits raises MemoryError, in the model too. Bytes and words are numbers without a
-- bound in the model; where a bound matters it is a hypothesis. A word of PATCH_AT outside the program
-- raises in the source and changes nothing in the model; the theorem on the reload asks that there is
-- none.
pub mod Base
pub mod Host
pub mod Bench
pub mod UsbBoard
pub mod UsbFs
pub mod Ethernet
pub mod Swd
pub mod Blame
pub mod Carrier
pub mod Learn
pub mod Traffic
pub mod Bridge
pub mod I2cTiming
pub mod Lab
pub mod Snorble
pub mod Plinkoo
