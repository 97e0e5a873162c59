-- ===== src/BitSet.antt =====
-- factDB/infra/BitSet.hpp and BitSet.cpp: the sets over which the optimizer enumerates.
pub mod Word
pub mod Var
