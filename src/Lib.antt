-- ===== src/Lib.antt =====
-- uRISCV, an emulator of multiprocessor RISC-V machines for teaching: a model of its processor and
-- of the parts that it stands on, with the theorems that make them correct.
--
-- The program. A machine (uriscv/machine.cc) steps its processors (uriscv/processor.cc) and a bus
-- (uriscv/systembus.cc). The bus maps addresses to memory, registers and devices, keeps the time and
-- a queue of device events (uriscv/event.cc), and raises lines on processors through an interrupt
-- controller (uriscv/mpic.cc). Paths are those of the directory src, its headers being in
-- include/uriscv.
--
-- The files.
--   Prelude     numbers, lists, 32-bit words, the digits of numbers, masks and shifts.
--   Word        uriscv/utility.cc and include/base/bit_tricks.h: `set_bit` is `SetBit`, and so on.
--   Event       uriscv/event.cc: the queue, a list of nodes with addresses, and the pointer to the
--               last insertion, which is an address too and so may dangle.
--   Outcome     what a piece of the emulator ends in: a state, the end of the emulator, or undefined
--               behaviour of C++.
--   Processor   uriscv/processor.cc. State has the class's fields as a record; Tlb, Translate and
--               Trap have the translation buffer, `mapVirtual`, and exceptions; Decode and Bytes the
--               fields of instructions and parts of words; Alu, Load, Store, Branch and System one
--               function for each `execInstr` routine; Cycle has `Reset`, `Cycle`, `IdleCycles` and
--               `Skip`. Access has the calls of the bus, over an interface of two operations. Mode
--               follows the mode and the buffer's size through all of them, and has the states
--               that calls of the machine lead to.
--   Stop        uriscv/stoppoint.cc: the vector of stop points and the sorted map of their ranges,
--               which share a stop point by its address. Order and Probing follow `Probe`, Insertion
--               follows `Add`.
--   Pic         uriscv/mpic.cc: `StartIRQ`, `EndIRQ` and the routing of interrupts; Registers has
--               `Read`, `Write` and `deliverIPI`. Lines, Operations and Reachable set what the
--               controller keeps next to the lines that it moves on the processors.
--   Bus         uriscv/systembus.cc: the address map and the registers; Space is uriscv/memspace.cc,
--               Area `DeviceAreaAddress`, Control uriscv/mp_controller.cc and uriscv/time_stamp.h,
--               Clock the time and the loop over due events, Transfer DMA. `system_bus` fills the
--               interface that the processor's files take.
--   Device      uriscv/device.cc: what devices share, Printer, Terminal, Flash and Disk. What a printer or
--               a terminal asks of the bus is a list of requests; a flash device or a disk calls the
--               bus through the interface of Block, which Port fills with the bus of Bus. Image files
--               (uriscv/blockdev.cc) are a parameter: reads and writes of blocks at an offset.
--   Machine     uriscv/machine.cc: `step`, `idleCycles` and `skip`. Watch has what stops the machine,
--               Clock `ClockTick` with what its events do to processors. Waiting, Idle and Rounds
--               follow the loop, and Clock/Ends its events.
--   Json        base/json.h and base/json.cc: the tree and `Serialize`; Types has `AsObject` and the
--               others, Parser `JsonParser`. Parser/Fuel bounds the parser's recursion; Parser/Scanning
--               and Parser/RoundTrip follow it over a printed tree.
--   Config      uriscv/machine_config.h and uriscv/machine_config.cc: the settings with their ranges;
--               Files has the factory settings, `LoadFromFile` and `Save` on the tree of Json, with
--               the addresses and hexadecimal numbers of uriscv/utility.cc. Loading, Devices and RoundTrip
--               follow a configuration to the tree and back; Readers has readers of hexadecimal texts
--               for the parameters that stand for `stoul` and `sscanf`.
--
-- The models. A register of the processor is a number below 2 ^ 32, signed or not, and every
-- operation on words has its wrap-around written out. Signals to observers are kept in a list,
-- and changes of interrupt lines of other processors in another one, for the end of the cycle.
-- Hosts are little-endian, as `BIGENDIANCPU` is 0, and wrap signed sums around. The loop of
-- `checkForInt` has fuel: 32 rounds, as a word has 32 digits, and its theorem is about the
-- function with that fuel. The loop of `ClockTick` over due events has as many rounds as events
-- are due, which is enough where callbacks schedule nothing that is due at once. There is one
-- such loop: the machine runs it with its callbacks, of which only the end of a device's
-- operation is a parameter, and for the bus by itself any callbacks do. The JSON parser may go
-- twice as deep as its text is long, and one deeper: each token takes a character, and at most
-- two calls stand between two tokens. The bus takes devices as two operations on them, and new
-- nodes of the event queue have their addresses from an allocator, which is a parameter too.
--
-- Not modelled: the fields that nothing reads (`isBranchD`, `loadPending`, the permissions of
-- control registers), text for logs and windows, the notices to the machine's observers
-- (`HandleBusAccess`) but for DMA's, the construction of the bus and the files that fill memory, the
-- network device, the tools and the windows.
pub mod Bus
pub mod Config
pub mod Device
pub mod Event
pub mod Json
pub mod Machine
pub mod Outcome
pub mod Pic
pub mod Prelude
pub mod Processor
pub mod Stop
pub mod Word
