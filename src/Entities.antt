-- ===== src/Entities.antt =====
-- The rows of the database: modules/*/entities/*.ts and modules/*/enums/*.ts, column by column.
-- A uuid is a number of 128 bits: the program compares and sorts uuids and does nothing else with
-- them, and the canonical texts sort as the numbers do. A date is its count of milliseconds.
mod Finance
mod Events
mod Audit
pub use Finance.*
pub use Events.*
pub use Audit.*
