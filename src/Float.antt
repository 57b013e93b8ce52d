-- ===== src/Float.antt =====
-- Python's `float` and the library calls on it that the program makes: a parameter of the model.
-- An operation is a function of its arguments; which float it returns is left open. Laws are
-- stated as hypotheses where a theorem needs them, and `Float.Fixed` shows that they can hold.
mod Interface
pub mod Fixed
pub use Interface.*
