-- ===== src/Lib.antt =====
-- Verification library of the C programs of this repository.
--
-- hw3/starter/router.c and hw3/starter/common.h, a distance vector router over UDP:
--   Router/Types     the messages and the state: dv_msg_t, data_msg_t, neighbor_t, route_entry_t,
--                    router_t.
--   Router/Table     rt_find_or_add and rt_lookup. Keys says which route a network has; Add and
--                    Longest are about the two functions.
--   Router/Dv        send_dv, broadcast_dv and dv_update. `dv_entry` is one round of the loop of
--                    dv_update; Relax is about one route, Table and Size about the table, Frame and Advert
--                    about the message, Exchange about two routers.
--   Router/Forward   forward_data, with the datagram that it sends as a value. Hops follows a packet
--                    from router to router, Down is about next hops.
--   Router/Loop      one round of the loop of main, from the return of select on. Alive and Reach
--                    hold the invariant and the reachable states.
--   Router/Conf      trim and parse_conf, on the bytes of the file, and the state that main starts
--                    from. Lines is about one line, Start about the router that comes out.
--   Router/Sendpkt   hw3/starter/sendpkt.c, which sends one packet to a router.
-- hw3/starter/starter/router.c, the earlier copy of the router:
--   Starter          what is different there: send_dv, dv_update, forward_data. Loop is a round of
--                    its loop of main, Offer is about one route and one offer.
-- hw1/tftp_server.c, a TFTP server:
--   Tftp/Packet      the packets as bytes; `Recv` is a return of recv under alarm(1).
--   Tftp/Request     dg_tftp_listen, handle_request, and the handlers up to the open file. Ports and
--                    Served are about the ports, Store about a request and its transfer together,
--                    Shape and Packets about all that a session sends.
--   Tftp/Wrq         the loop of handle_wrq as a state machine, over the returns of recv. Transfer is
--                    about any network, Awaited and Complete about one that brings the blocks in
--                    time.
--   Tftp/Rrq         the loops of handle_rrq, in the same way. Rule, Blocks and Even are about what is
--                    sent, Answers and Complete about a client that acknowledges the blocks.
-- hw2/chatroom_server.c, a chatroom server:
--   Chat/Queue       the linked job queue, on an explicit store of nodes.
--   Chat/Room        the list of clients: handle_new_connection, remove_client, broadcast_message,
--                    is_username_taken.
--   Chat/Process     process_message. Serve puts it together with the changes of the list.
--   Chat/Lines       handle_client_message, on the whole array `inbuf`. Split is the reference: the
--                    lines of a stream; Stream, Call and Receive compare the two.
--   Chat/Send        send_to_client, over what send returns.
--   Chat/Server      a round of the loop of main, a round of worker_thread, the signal and the
--                    shutdown. Clients, Round and Run are about what a round keeps, Reach about the
--                    states that are reached, Deliver about a message on its way, Close about the
--                    end.
--   Chat/Workers     any number of workers and main, step by step and in any order. Fifo is about the
--                    order of the jobs, Keeps and Names about the names, Alone, Processing and Round
--                    about a worker that nothing disturbs, Naming and Race about two workers and one
--                    name, Pointers, Safe and Dangling about clients that are freed, Measure and Ends
--                    about the end.
-- lab3/server.c and lab3/client.c, a message board server and its client:
--   Board            a round of the loop of main, from the return of select on. Ring is about the
--                    board as a circle of ten entries, Get about the answer to GET, Slots about the
--                    sockets. Client is a round of the client, Post its message on the way.
-- lab4/lab4.c and lab4/client_test.c, a server that computes Fibonacci numbers with threads, and its
-- client:
--   Fib              the ranges of the threads in client_handler; Number is fib; Reply is the
--                    answer, from worker_thread and client_handler; Session is client_handler
--                    on what the client sends. Client is the client and its terminal; Plain and Shown
--                    follow the answer to it.
-- Base holds what these share; Net the byte order of the host, which is a parameter with the laws
-- that the programs rely on; CString what they use of <ctype.h>, <strings.h> and sscanf.
--
-- Numbers are natural numbers, and where the code has a width, the wrap-around is written out
-- (`% 2 ^ w`). The loops are recursion on the rounds that are left, or on the list that they go
-- through: a table, the entries of a message, or the events that a socket gives. Four loops have
-- fuel. cut_lines of Chat/Lines has one round more than there are bytes, and each round goes past a
-- newline. send_to_client of Chat/Send has a round for each byte, and each round sends one at
-- least. worker_thread of Chat/Server has as many rounds as its caller says; one more than there
-- are jobs is enough. digits of Fib/Reply has 20 digits, which a 64-bit number never exceeds.
-- time(NULL) is an argument of dv_update, which reads it once for a message; last_update is written
-- and never read. A file system, inet_aton, and what accept, recv, read and malloc give are
-- arguments too. `undefined`, `fault`, `crashed`, `overrun`, and `none` of dv_update and cut_lines
-- stand where the C program reads or writes outside an array, through a null pointer, or reads a
-- variable that is not set; `none` of fib and reply is an overflow of a long or of an array.
--
-- In Chat each call of the queue is one step, since it holds the mutex. Chat/Server takes a round
-- of main and a round of a worker as one step each. Chat/Workers cuts a worker's round where it
-- gives the mutex back or reads a client through the pointer that it has kept, and one turn of a
-- schedule is one such step of one worker, or one thing that main does: a connection, a client that
-- is served, a message that goes out, the signal, or all that stands behind the loop, which is left
-- when the flag is set or select fails. In a worker two things stay one step: a line of a client
-- with a name, and the writing of a name with the two texts behind it. That a pointer leads to no
-- client in the list stands for freed memory.
--
-- Not modelled: the set-up of sockets, select, and printing; the loop of accept in lab4;
-- hw2/skeleton.c and hw2/test_client.c, a hand-out and a client that says fixed lines.
-- unpv13e-master is the code of another project.
pub mod Base
pub mod Net
pub mod Router
pub mod CString
pub mod Tftp
pub mod Chat
pub mod Fib
pub mod Board
pub mod Starter
