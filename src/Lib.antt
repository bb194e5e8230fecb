-- ===== src/Lib.antt =====
-- TSCH and the radio driver of a 6TiSCH-like MAC for Contiki: tsch.c, tsch-parameters.h and
-- dev/cc2420-tsch.c.
--
-- A node keeps a queue of packets for each neighbor of a table. In each slot `powercycle` picks a cell
-- and a packet, sends or listens, and at the end of the slot moves on in the schedule; acknowledgments
-- carry time corrections from receivers to senders. The driver's interrupt receives frames, keeps them in
-- a list and prepares acknowledgments.
--
-- The files, and the code that they model:
--   Prelude      shared helpers: lists, Boolean tests, signed integers and machine words
--   Contiki      the parts of Contiki that tsch.c calls, as parameters with laws, and an example of them
--   Queue        struct neighbor_queue and what the queue functions of tsch.c do to one circular buffer;
--                Inv is the representation invariant, Fifo the specification, Refine the refinement
--   Neighbors    the queue functions of tsch.c (neighbor_queue_from_addr, add_queue, remove_queue,
--                add_packet_to_queue, remove_packet_from_queue, read_packet_from_queue) over the table;
--                Fifos specifies them, Frees is about the queuebufs that they free, Head
--                about the packet that is next
--   SharedTx     get_next_packet_for_shared_slot_tx
--   Params       tsch-parameters.h, and the cells and the slotframe that tsch.c declares
--   Time         get_cell, get_next_on_timeslot, hop_channel, schedule_fixed, and the end of each round
--                of powercycle
--   Sync         add_sync_IE, tsch_make_sync_ack, and the reading of the correction in powercycle
--   Decide       the start of a round of powercycle: what to send, or to listen
--   Outcome      what powercycle does with the result of a transmission; Settle is the specification
--   Powercycle   powercycle, tsch_resume_powercycle, on and off of tsch.c: the protothread from yield to
--                yield. Transmit and Receive are the two kinds of slots, Round the whole and the events
--                between its yields, Start is init and tsch_associate. Graph is about the order of the
--                yields, what it asks of the radio and the timer, Live about accesses through NULL and the
--                end of a slot, Settles about the queues through a slot that sends; Kept, Sound and Paced are
--                about what each call keeps (the validity of the queues, the slot number and the ASN),
--                Progress about the whole going on; Queues is about the queues through any number of slots
--                (Spec is their specification, Order the order of packets), Reach about the states reached
--                from init
--   Send         send_one_packet, send_packet and send_list
--   Input        packet_input
--   Callback     tsch_tx_callback_process; Spared is about the slot of the packet that was posted to it,
--                Reports about what it reports, with Outcome.Safe
--   Associate    the loop of tsch_associate: the queues of the links
--   Radio        dev/cc2420-tsch.c: on and off, the lock, registers, RSSI and CCA; Frame reads the header
--                of a frame, Interrupt is cc2420_interrupt and cc2420_read, Spi the SPI macros of
--                dev/cc2420-tsch.h over the chip as a parameter, Setup cc2420_init, cc2420_set_pan_addr,
--                cc2420_prepare and cc2420_sfd_sync, Poll cc2420_process and cc2420_read_ack
--   Tests        the theorems at concrete inputs
--
-- State is passed from function to function. A pointer into the neighbor table is a number, a packet's
-- pointer is the entry and the slot in its buffer, a queuebuf is a number, and an access through NULL is
-- `none`. The machine is the MSP430, where `int` has 16 bits; wrap-around is written out. Readings of
-- timers, of random numbers and of pins are arguments. Between two yields of powercycle the timer, the
-- radio's interrupt and calls of add_packet_to_queue come in any order, each whole; that a process adds or
-- removes a neighbor meanwhile (add_queue, remove_queue) is not among these events. The flag
-- working_on_queue is kept, and a slot that sees it set is off. A queuebuf is NULL where its number is 0.
-- The variables of powercycle that do not survive a yield are read as whatever the stack holds then. Of the
-- radio, Powercycle has the calls that powercycle makes of it; that the driver also turns it off by itself,
-- after a transmission and in its interrupt, is in the files of Radio only.
--
-- The scan of get_next_packet_for_shared_slot_tx runs on fuel of one more than the entries that the
-- neighbor table can hold (NBR_TABLE_CONF_MAX_NEIGHBORS, 20), since it walks along the table once; that
-- this is enough is proved. The wait of cc2420_set_pan_addr reads the chip's status as often as it can in the
-- tenth of a second that the code gives it, a number that is an argument. All other loops are over lists or of a fixed number of rounds.
--
-- Not modelled: send_eb, which nothing calls; the code under CCA_ENABLED, which is off; calls of on and off
-- by the layers above; energy estimates, LEDs, debug output and the waits for the chip's status, but that of
-- cc2420_set_pan_addr, which change no variable; mac_call_sent_callback, which is Contiki's; the example applications, which
-- only send and print messages.
pub mod Prelude
pub mod Contiki
pub mod Queue
pub mod Neighbors
pub mod SharedTx
pub mod Params
pub mod Time
pub mod Sync
pub mod Outcome
pub mod Powercycle
pub mod Decide
pub mod Send
pub mod Input
pub mod Associate
pub mod Callback
pub mod Tests
pub mod Radio
