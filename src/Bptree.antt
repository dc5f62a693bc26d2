-- ===== src/Bptree.antt =====
-- src/bplustree.c: an append-only B+ tree.
pub mod Key
pub mod Node
pub mod Insert
pub mod Delete
pub mod Search
pub mod Order
pub mod Bounds
pub mod Position
pub mod Entries
pub mod Tree
pub mod Sound
pub mod Focus
pub mod Leaf
pub mod Split
pub mod Laws
pub mod Moves
pub mod Steps
pub mod Added
pub mod Grown
pub mod Refine
pub mod Found
pub mod Frame
pub mod Rollback
pub mod Stored
pub mod Select
pub mod Ranged
pub mod Listed
pub mod Erase
pub mod Pair
pub mod Joined
pub mod Merged
pub mod Rejoined
pub mod Balanced
pub mod Removed
pub mod Deleted
pub mod Shrunk
