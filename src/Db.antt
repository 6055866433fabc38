-- ===== src/Db.antt =====
-- internal/db but for the cache: the text of vectors, the rows of a query, the statements, the two
-- repositories and the connection. database/sql, encoding/json and strconv are parameters.
pub mod Vectors
pub mod Rows
pub mod Statements
pub mod Repository
pub mod Collections
pub mod Connection
