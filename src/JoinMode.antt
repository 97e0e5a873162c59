-- ===== src/JoinMode.antt =====
-- `JoinType` of factDB/algebra/JoinMode.hpp, which the operators, the optimizer and the runtime share.
use fact_db.Prelude.{Bool, true, false}

pub data JoinType : Type 0 where
  inner : JoinType
  right_semi : JoinType

unfoldable pub is_right_semi : JoinType → Bool
is_right_semi inner = false
is_right_semi right_semi = true
