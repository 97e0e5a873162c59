-- ===== src/Lib.antt =====
-- FactDB: a database engine that keeps the results of joins factorized, in trees of lists, and
-- compiles queries to C++. This library models parts of its runtime and of its query compiler.
--
-- Files, and the sources they are about (paths from the repository's root):
--   Prelude            tests and lemmas on lists, options and bits that the parts share
--   BitSet             factDB/infra/BitSet.hpp, BitSet.cpp. BitSet/Word is `BitSet64`, one word;
--                      BitSet/Var is `BitSetVar`, a list of words.
--   UnionFind          factDB/infra/UnionFind.hpp, UnionFind.cpp: `UnionFindBase`, the forest in
--                      which the optimizer keeps equal columns. State passing: each operation takes
--                      the elements and gives them back.
--   IuSet              factDB/infra/IUSet.hpp, IUSet.cpp: sets of columns.
--   FTree              factDB/newftree/FNode.*, FTree.*, FIterator.*: the factorized trees, in which
--                      the query compiler lays out the result of a join. FTree/Node is the nodes,
--                      FTree/Trees the trees and iterators, FTree/Merge the merging of two trees.
--                      Pointers between trees are positions in a store; a node of another tree
--                      that is referred to is kept as a value.
--   HashTable          factDB/infra/ChainingHashTable.hpp, filled by several threads and built by one,
--                      and the loop of the joins over it (MaterializedExecution.cpp)
--   JoinMode           the join types of factDB/algebra/JoinMode.hpp
--   MultiVectorView    factDB/infra/MultiVectorView.hpp: the view over the buffers of the threads, as
--                      one sequence
--   TaggedPointer      factDB/util/TaggedPointer.hpp: an address and a tag in one word
--   Optimizer          factDB/opt. Plans is Plan.hpp and Plan.cpp: plans in a store, where a pointer
--                      is a position. DpSize is algs/DPSize.cpp with the flat estimator of
--                      estimators/FlatEstimator.cpp; the cardinality oracle and the query graph's
--                      test for a join edge are parameters of the search. FixedPlan is
--                      algs/FixedPlan.cpp with the printing of plans. QueryGraph is
--                      QueryGraph.cpp: the classes of equal columns, which it keeps in the
--                      forests of UnionFind/Values, and its tests. The numbers stand for columns
--                      and tables, and a join condition for the columns that it collects.
--   PushDown           factDB/opt/PredicatePushDown.cpp: how a selection's predicate is split and
--                      distributed to the children of a join
--   Timestamp          factDB/infra/types/Timestamp.cpp. Calendar is the arithmetic of days and
--                      milliseconds, Text the parser and the printing operators.
--   Tests              runs at concrete inputs
-- Names are the source's in lower case with underscores.
--
-- Numbers are natural numbers; the wrap of 32 and 64 bit words is written out where the source
-- computes on them. `none` stands for a failed assertion, an undefined shift or an access out of
-- bounds. Exceptions are values of a result type.
--
-- Fuel: the loops of `find` and `findConst` have one round more than there are elements, which is
-- enough since a path in a valid forest visits no element twice. The loop over a word has 64
-- rounds, one for each bit. The loop of the iterator of `BitSetVar` has one round more than there
-- are words. The loops over a tree have one round more than the tree has nodes, and the loop that
-- collects the required nodes two for each node and one more. A printed number has ten digits at
-- most, since it has 32 bits. A tree is read from a plan in 64 levels, since the sets on a path
-- from its root lose a relation at each level. The parser of plans recurs one level more than its
-- text has bytes, since it consumes a bracket before it recurs.
--
-- Forests of fewer than 2^32 - 1 elements are meant, so that an index plus one is a 32 bit number;
-- this sum is not wrapped.
--
-- The classes of the query graph are followed for at most 63 columns, which fit in one word.
--
-- Not modelled: printing of sets in binary and their numeric order, the other value types, the
-- containers and allocators, the operators of the algebra and the code they generate, the other
-- optimizer algorithms, the join conditions that the query graph finds between two plans, the
-- oracles, the other changes to the operator tree, the parser, and all input and output.
pub mod Prelude
pub mod JoinMode
pub mod BitSet
pub mod UnionFind
pub mod Timestamp
pub mod IuSet
pub mod FTree
pub mod HashTable
pub mod MultiVectorView
pub mod TaggedPointer
pub mod Optimizer
pub mod PushDown
mod Tests
