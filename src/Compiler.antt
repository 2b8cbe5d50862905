-- ===== src/Compiler.antt =====
-- src/compiler/compiler.c and src/compiler/compiler.h: the compiler of the shell's C dialect, from
-- characters over tokens and nodes to 8080 code.
pub mod Result
pub mod Action
pub mod Token
pub mod Lexer
pub mod Ast
pub mod Parser
pub mod Code
