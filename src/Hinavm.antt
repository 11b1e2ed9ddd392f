-- ===== src/Hinavm.antt =====
-- The bytecode interpreter: libs/common/hinavm_types.h (instructions), kernel/hinavm.h (programs)
-- and kernel/hinavm.c (the interpreter).
pub mod Inst
pub mod Coding
pub mod Machine
pub mod Labels
pub mod Rules
pub mod Words
pub mod Runs
pub mod Tests
