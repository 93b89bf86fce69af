-- ===== src/Template.antt =====
-- The template engine (rwf/src/view/template): text is cut into tokens, tokens are parsed into a
-- program, and a program is evaluated in a context of variables.
pub mod Value
pub mod Token
pub mod Host
pub mod Lexer
mod Sample
mod Tests
pub mod Op
pub mod Expression
pub mod Statement
pub mod Render
