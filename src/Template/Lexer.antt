-- ===== src/Template/Lexer.antt =====
-- `Lexer` of rwf/src/view/template/lexer/mod.rs. The characters that the iterator has still to
-- deliver are passed beside the lexer's state; each arm of the loop in `tokens` is one function.
pub mod Buffer
pub mod Arms
pub mod Loop
pub mod Total
pub mod Plain
