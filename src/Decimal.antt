-- ===== src/Decimal.antt =====
-- The exact decimals of github.com/shopspring/decimal, which is not part of the repository: an
-- interface with the operations that the account code calls and their documented behaviour.
--
-- `units` is the number that a decimal stands for, counted in a unit small enough for the amounts
-- at hand: every finite set of decimals is whole in some power of ten, and `Add`, `Sub`, `Neg`,
-- `Max`, `Min` and `Round` do not leave the decimals that are whole in it. A cent is `cent` units.
-- Two decimals that stand for one number (1.5 and 1.50) need not be equal as values.
mod Laws
mod Cents
pub mod Rounding
pub use Laws.*
pub use Cents.*
