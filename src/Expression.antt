-- ===== src/Expression.antt =====
-- The calculator of C++/Datastruct/Stack/ExpressionStack. A text is the list of the codes of its
-- characters, without the closing NUL. Characters are ASCII, so a `char` that goes through the
-- `int` of a stack comes back unchanged.
pub mod Syntax
pub mod Convert
pub mod Evaluate
