-- ===== src/Lib.antt =====
-- Verification of the C programs of the M.Tech. CSE course work.
--
-- The programs are independent of each other; each is modelled by a module of its own over the
-- helpers of Common (C arrays as lists, Boolean tests, bit operations, C integers, ctype.h).
--
-- Huffman: LAB_SE/Session1/Assignment 2.2/CSMCS26A017_Lab2_2.c, the file compressor. BitIo has
-- the bit writer and reader (bitWriterInit to readBits), Node the tree, Heap the priority queue
-- (createMinHeap to insertMinHeap), Build buildHuffmanTree, Codes generateCodes, Header the
-- preorder form of the tree, and File compressFile and decompressFile, which use all of these.
-- A FILE is the list of the bytes written so far, or still to be read; `uint64_t` and `uint32_t`
-- wrap around; the abstract views are the list of bits (BitIo/Stream) and any additive weight of
-- the nodes in a heap (Heap/Sums). Heap/Order is about the order of the heap,
-- and Build/Optimal compares the tree with any other one, as a shape with labels.
-- Framing: STCN/Session1/Lab_Session_1/Exp01_Framing, bit_stuffing.c and byte_stuffing.c.
-- Detection: STCN/Session1/Lab_Session_1/Exp02_Error_Detection, checksum.c, where the carries of a
-- 32-bit sum are folded in two rounds, crc.c and parity.c. What strtol reads is a parameter.
-- Correction: STCN/Session1/Lab_Session_1/Exp03_Error_Correction/hamming.c.
-- FlowControl: STCN/Session1/Lab_Session_1/Exp07_Flow_Control. What the simulations print is a list
-- of events; the window and the number of frames are parameters. It has go_back_n.c and
-- stop_and_wait.c.
-- LeakyBucket: STCN/Session1/Lab_Session_1/Exp08_Traffic_Shaping/leaky_bucket.c.
-- Ciphers: STCN/Session1/Lab_Session_1/Exp09_Cryptography_Ciphers, caesar_cipher.c and
-- substitution_cipher.c.
-- Rainfall: LAB_SE/Session1/Assignment 2.1/CSMCS26A017_Lab2_1.c. Csv has readCSV, Extremes the two
-- searches of doPartA, Merge and Quick the two sorts, Search the binary searches and Program the
-- menu with doPartB and doPartC, which use all of these. The doubles are a section parameter of an
-- interface (Doubles), whose laws hold for all values but NaN; what atoi, atof and rand return, and
-- what uninitialised memory holds, are parameters without any law.
-- Rsa: STCN/Session1/Lab_Session_1/Exp10_RSA_Algorithm/rsa.c. The modulus and the totient wrap
-- around at 2^64; the theorems bound the numbers so that no signed value overflows. Coefficients is
-- about the values of ext_gcd; Binomial, Fermat and Exponent have the number theory behind
-- decryption.
-- Routing: STCN/Session1/Lab_Session_1/Exp06_Routing_Algorithms, dijkstra in
-- shortest_path_dijkstra.c, with the rows of the table that it prints, on any network whose costs
-- are not negative and whose sums fit into an int, and main of distance_vector_routing.c on any
-- network whose links have positive costs up to INF, as many nodes as the tables hold.
--
-- A name of the source keeps its words: `writeBits` is `write_bits`. A C string is the list of its
-- codes before the NUL. A main function gets its arguments and returns what it computes and its
-- exit status.
--
-- Loops over a sequence recurse on it. Where a loop or recursion has no such measure it gets fuel:
-- minHeapify and the loop of insertMinHeap as much as there are slots below or above an index
-- (Heap/Unfold shows that more changes nothing), the greedy loop as much as there are nodes,
-- deserializeTreePreorder and the decoding loop one more than there are bits in the file, the
-- leaky bucket the seconds of its trace and the capacity of its bucket, a recursion
-- on a segment of an array the length of the segment, Euclid's algorithms one more than their second
-- argument, mod_exp its exponent, is_prime its argument, calculate_r the number of data bits,
-- Go-Back-N the number of frames, the exchange of distance vectors one more than the sum of all
-- costs, stop-and-wait two attempts for a packet, and the paths of dijkstra one more than there are
-- nodes.
--
-- Not modelled: console output and menus of the compressor, the release of memory, failing
-- allocations but those of the rainfall program, and failing writes; the socket programs, which are
-- calls of the operating system; the copies of the assignments in folders named Send. Selective
-- repeat is not modelled: the program has a single run, fixed in its text.
pub mod Common
pub mod Framing
pub mod Correction
pub mod Detection
pub mod FlowControl
pub mod Huffman
pub mod LeakyBucket
pub mod Ciphers
pub mod Rainfall
pub mod Routing
pub mod Rsa
