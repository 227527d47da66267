-- ===== src/Huffman/Build/Optimal.antt =====
-- The optimality of the tree that `buildHuffmanTree` returns.
pub mod Slots
pub mod Deepest
pub mod Contract
pub mod Cost
pub mod Greedy
pub mod Labels
pub mod Tree
