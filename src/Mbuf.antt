-- ===== src/Mbuf.antt =====
-- servers/tcpip/mbuf.c and mbuf.h: packet buffers, chains of fixed-size pieces. A chain is the list
-- of its mbufs in the order of their `next` pointers, and NULL is the empty list; where C reads
-- through the pointer, the first mbuf and the rest are two arguments. `malloc` stops the program
-- when it has no memory, so an allocation gives an mbuf, filled with zeros.
pub mod Ops
pub mod Contents
pub mod Append
pub mod Read
pub mod Cut
pub mod Tests
