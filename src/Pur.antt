-- ===== src/Pur.antt =====
-- The shell, pur/src: its lexer, its syntax tree and its parser.
pub mod Lexer
pub mod Ast
pub mod Parser
pub mod Command
mod Tests
