-- ===== src/Models.antt =====
-- app/models.py: the rows of the tables that the money paths read and write, and the database as
-- one record of tables. Relationships and index options of the columns are not modelled, nor are
-- display columns (emoji, descriptions, notes). A time is a number of seconds.
mod Users
mod Catalog
mod Orders
mod Payments
mod Database
pub use Users.*
pub use Catalog.*
pub use Orders.*
pub use Payments.*
pub use Database.*
