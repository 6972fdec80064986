-- ===== src/Models.antt =====
-- apps/backend/integrations/models.py: the tables. A table is the list of its rows in the order of
-- their primary keys; `filter` keeps rows, and `update` maps the rows that a test selects. A row
-- holds the columns that the modelled code reads or writes: columns of the admin pages (names,
-- service account, creation times) are left out. Times are seconds, UUIDs are numbers.
mod Connection
mod Document
mod Authorization
mod Settings
mod Store
mod Acl
pub mod Twin
unfoldable pub use Connection.*
unfoldable pub use Document.*
unfoldable pub use Authorization.*
unfoldable pub use Settings.*
unfoldable pub use Store.*
unfoldable pub use Acl.*
