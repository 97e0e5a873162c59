-- ===== src/FTree.antt =====
-- factDB/newftree: the factorized trees. Node is FNode.hpp and FNode.cpp; Trees is FTree.cpp and
-- FIterator.cpp, and Merge the part of FTree.cpp that merges trees.
pub mod Node
pub mod Trees
pub mod Columns
pub mod Walk
pub mod Required
pub mod Merge
