-- ===== src/Lifecycle.antt =====
-- domain/lifecycle.py: the statuses of sessions and tool calls and the transitions between them.
-- A `Literal` of strings is an enumeration; `text` and `parse` give and read the strings.
pub mod Session
pub mod Call
