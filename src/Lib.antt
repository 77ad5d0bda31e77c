-- ===== src/Lib.antt =====
-- CommandStation-EX for LaBox is a command station for model railways: it takes orders for locos and
-- accessories, turns them into DCC packets, queues the packets and sends them to the track, and it
-- sends replies to network clients through a ring of bytes.
--
-- The parts that are modelled, and their files:
-- * Dcc (DCC.cpp, DCC.h): Dcc/Packets has the bytes of each kind of packet (setThrottleDCC,
--   setFunctionInternal, setFn, setAccessory, setExtendedAccessory, writeCVByteMain, readCVByteMain,
--   writeCVBitMain, setTime). Dcc/Receiver is a decoder that is written from the packet formats
--   alone, and Dcc/Speed, Dcc/Commands, Dcc/Roundtrip and Dcc/Clock state what it reads.
--   Dcc/Momentum has the scale of speeds (normalize, dccalize) and one step on it, Dcc/Reminder the
--   momentum of a loco over time (getMomentum, the speed cases of issueReminder).
-- * CircularBuffer (CircularBuffer.hpp, CircularBuffer.cpp): the byte queue of the display and of the
--   UDP clients.
-- * Locos (LocoSlot.h, LocoSlot.cpp): the table of locos, its chain and its recycler.
-- * Consists (DCCConsist.cpp): making a consist of locos (parse) and deleting it (deleteAnyConsist), by
--   the pointers between the slots of that table. Consists/Along follows these pointers, and
--   Consists/Deleted and Consists/Parsed are about the two operations.
-- * Functions (DCC.cpp): the functions of the locos over that table, from setFn to setDCFreq.
-- * Orders (DCC.cpp): setAccessory, setExtendedAccessory and setTime as calls on the queues.
-- * DccQueue (DCCQueue.h, DCCQueue.cpp): the two queues of packets for the main track, and the free
--   list of slots. A queue is a list, and a step gives the packet that goes to the waveform.
-- * RingStream (RingStream.h, RingStream.cpp): the ring of reply frames, its writer's side from mark
--   to commit, and its reader's side, with the loops of WifiInboundHandler.cpp that take a frame out
--   (RingStream/Delivery).
-- * ProgTrack (DCCACK.h, DCCACK.cpp, DCC.cpp): the statics of DCCACK that the interpreter uses, one
--   entry of a program (exec), one call of DCCACK::loop (loop). ProgTrack/Programs has the programs
--   of DCC.cpp, ProgTrack/Requests Setup and the requests that start them (writeCVByte to
--   setConsistId, Labox::ChangeCVs), ProgTrack/Return the callback, ProgTrack/Pulse checkAck, getAck
--   and setAckPending. ProgTrack/Session is a program before a decoder that answers each packet,
--   ProgTrack/Decoder a decoder written from the format of service mode alone; ProgTrack/Retries
--   repeats a session as the callback asks for it.
-- * Parser (DCCEXParser.cpp, KeywordHasher.h): splitValues as a scan of a list of bytes, parseOne up to
--   its switch, the hash of keywords. Parser/Values has what a word means, Parser/Words and
--   Parser/Printed how the scan goes along what is written out, Parser/Commands whole commands,
--   Parser/Fuel the end of the scan, Parser/Room the array of parameters.
-- * Waveform (DCCWaveform.h, DCCWaveform.cpp): the timer's interrupt of the two tracks, the packet that
--   is sent and the one that waits. Waveform/Bits to Waveform/Repeats go from levels to bits, bytes
--   and packets, Waveform/Bounds has the bounds of the arrays. Waveform/Channel (DCCRMT.h,
--   DCCRMT.cpp) is the signal of the ESP32.
-- * Sensors (Sensors.h, Sensors.cpp): the list of sensors and its scan (checkAll).
-- Prelude has the tests on numbers, the lemmas on lists, the integers and the facts on bytes.
--
-- Dcc makes the bytes that DccQueue holds, and Waveform sends such bytes. State is passed explicitly.
-- The clock is an argument.
-- Numbers are natural numbers with the wrap-around of the source written out; bytes of arguments are
-- below 256 where a statement says so. Every loop of the source goes along a list, but for the
-- retries of a program, which take fuel: one more than the retries that are set is enough; and for
-- splitValues, whose fuel is the length of the text and 33: each byte is left by one turn, and each
-- of the ten places costs at most three more. deleteAnyConsist has one more than the slots of the
-- chain, since each turn of its loop takes a slot out. The list of the consists has as much for each
-- of them, and needs more only where its pointers go round, so that the loop does not end. The greatest number of locos is an argument.
--
-- Not modelled: addLocoToConsist; the throttle functions of DCC.cpp that use the loco table; EXRAIL; the
-- cutout for RailCom; setAckBaseline, which reads the motor driver; the handlers of the commands and
-- the network protocols; outputs, turnouts and turntables; and the drivers of displays, motors and
-- devices. The flash inserts of RingStream are for 16-bit targets, where a pointer has two bytes.
pub mod CircularBuffer
pub mod Consists
pub mod Dcc
pub mod DccQueue
pub mod Functions
pub mod Locos
pub mod Orders
pub mod Parser
pub mod Prelude
pub mod ProgTrack
pub mod RingStream
pub mod Sensors
pub mod Waveform
