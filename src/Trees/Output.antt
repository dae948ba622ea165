-- ===== src/Trees/Output.antt =====
-- What the in-order walks print: traverse.cpp every value, leaf_output.cpp the leaves,
-- parents_output.cpp the nodes with two children, one_child_parents_output.cpp those with one.
-- The walks are in `Walk`, the theorems about them in `Ascending` and `Printed`.
mod Walk
mod Ascending
mod Printed
unfoldable pub use Walk.*
pub use Ascending.*
pub use Printed.*
