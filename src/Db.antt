-- ===== src/Db.antt =====
-- internal/db: the SQLite tables as records and lists, and the queries as functions on them.
-- Queries run one at a time (SetMaxOpenConns(1)), so each function is one atomic step. Errors of
-- the SQLite driver itself are outside the model.
pub mod Deploys
pub mod Listing
pub mod Sessions
