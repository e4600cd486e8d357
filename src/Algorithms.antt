-- ===== src/Algorithms.antt =====
-- learning/algorithms/examples: searching and sorting, and algorithms on graphs and tables.
pub mod Search
pub mod Sort
pub mod Traversal
pub mod Tables
pub mod ShortestPath
mod Tests
