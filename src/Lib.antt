-- ===== src/Lib.antt =====
-- A verification library for the C functions of this repository: two queues, checksums, base64,
-- integer printing, a file of keys and values, message queues, threads with semaphores, the serial
-- port, the GPS reader, the modem, the PPP dialler and the default gateway.
--
-- The programs of the repository do not call each other, but for queue/array/queue.c and
-- queue/list/lqueue.c, which their mains use, and LTE/at/mat.c, which works on the ports of
-- LTE/at/muart.c. Each part has a module of its own:
--   Squeue   queue/array/queue.c and queue.h. The struct is the record `Squeue`, with the mutex as a
--            Boolean and the array as a list; `enqueue`, `enqueue_ext`, `dequeue`, `destroy`, `init`,
--            `is_full` and `is_empty` are the functions squeue_*. Inv has the invariant, Window the
--            items of the circular array, Fifo the specification, Refine the refinement.
--   Lqueue   queue/list/lqueue.c and lqueue.h. Nodes live in an explicit memory (Store), so that
--            freed and NULL addresses are faults; Ring describes a well-formed circular list.
--   Memory   the blocks of bytes that malloc, memcpy and free work on, for both queues.
--   Crc      crc/crc8.c, crc/crc16.c and crc/bcc.c with their tables; Modbus is the CRC-16 without
--            tables, Byte, Word and Parity hold the laws.
--   Base64   encode/base64.c. The decoder runs on the buffer that it overwrites.
--   Gps      uart/read_gps.c: Clock is utc2btc, Packet parse_packet, Frames parse_buf, Receive the
--            loop of main over its receive buffer, Fields parse_gnrmc, parse_gngga and
--            set_interval_timer.
--   Serial   LTE/at/muart.c, and the same functions of uart/read_gps.c: the settings of a port, raw
--            mode (Raw), the functions muart_* and init_uart (Line), the transfer loops.
--   Modem    LTE/at/mat.c: the AT commands and the state of the card (Sim over Signal and Answers, which
--            have what the modem has answered when a check succeeds); Session has the functions
--            mat_uart_* around an open port, Ports and Name what they leave of its settings and of the
--            operator's name.
--   Ppp      LTE/ppp_call1/ppp_call.c: the loop of main with pppd_start and the handler of SIGCHLD.
--   Route    net/gateway.c: get_default_gateway with read_routes and parse_routes.
--   Kv       parsekv.c: the key functions, file_get_value (Read) and file_update_value (Update) on the
--            text of the file. File has its lines, Key the key of a line, Lookup and RoundTrip what the
--            two functions do one after the other.
--   Itoa     common_itoa.c: Reverse is the loop of swaps, Read what the digits spell.
--   Msgqueue ipc/queue/msg_queue.c: sending with retries, and receiving with a time limit.
--   Pthread  pthread/sem/product_consumer/sem_pc.c: Items is the producer and the consumer as a step
--            relation over their shared buffer and semaphores. Queue is pthread/sem/base/sem.c,
--            likewise.
--   Bits     laws of the bit operations; Prelude shared names, lists and tests.
--
-- Conventions. A byte and an unsigned word are natural numbers with the wrap-around written out; a
-- char is its bit pattern. A signed value that can be negative is an integer of Prelude. An
-- operation that can meet undefined behaviour (NULL, an index out of range, a freed block, an
-- overlong copy) or block for ever returns an Option, or a Run in Lqueue, and none or fault stands
-- for it. What malloc and calloc return, what tcgetattr and tcsetattr do, and the answers of read,
-- write and recv are arguments of the operations that call them; so are atof and if_indextoname.
-- Threads and signal handlers are steps of a relation or of a function on the shared state, one
-- step for each access, in every order.
--
-- Fuel. The loop of the base64 decoder moves four characters a round, so length + 1 rounds are
-- enough; so are len + 1 rounds for parse_buf, whose loops move on in each. The loop of
-- squeue_destroy lowers count. The walks over a linked queue take fuel for every item. The loops of
-- read_routes and of the receive buffer run over the list of the system's answers.
--
-- Not modelled: cJSON, struct2json and the list of the kernel, which are copies of other projects;
-- printing and logging; programs that only call the system (sockets, select, epoll, sqlite, MQTT).
-- Of read_gps.c the conversion of degrees and the digits that fix_gps_info prints are left out, of
-- gateway.c get_local_net_info, which only calls ioctl, of mat.c what it prints.
pub mod Prelude
pub mod Memory
pub mod Bits
pub mod Crc
pub mod Lqueue
pub mod Squeue
pub mod Base64
pub mod Gps
pub mod Serial
pub mod Modem
pub mod Msgqueue
pub mod Itoa
pub mod Kv
pub mod Pthread
pub mod Ppp
pub mod Route
