-- ===== src/Colored.antt =====
-- tonio/_colored, the variants of the library's modules for `async` and `await`. What a file there takes
-- from its counterpart is taken from the model of that.
pub mod Socket
pub mod Spawn
pub mod Completed
