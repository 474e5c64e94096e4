-- ===== src/Checker.antt =====
-- mort/typechecker.py. Types has the functions on the texts of types, Substitute the replacement of parameters,
-- Constants the values of constant expressions, and Flow the check that a function returns.
pub mod Types
pub mod Substitute
pub mod Constants
pub mod Flow
mod Trees
mod Reader
mod Pieces
mod Replace
mod Shapes
mod Sizes
mod Replaced
mod Fuel
mod Ends
mod Widths
mod Division
mod Values
mod Runs
mod Returns
mod Tests
