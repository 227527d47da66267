-- ===== src/Huffman.antt =====
-- LAB_SE/Session1/Assignment 2.2/CSMCS26A017_Lab2_2.c: Huffman compression of files.
pub mod BitIo
pub mod Node
pub mod Codes
pub mod Header
pub mod Heap
pub mod Build
pub mod File
mod Tests
