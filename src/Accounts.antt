-- ===== src/Accounts.antt =====
-- Who may use the controller: the tables of accounts and sessions (controller/em_db.py), the logins
-- (controller/em_auth.py) and the requests that change them (controller/em_api.py).
pub mod Store
pub mod Rows
pub mod Login
pub mod Access
pub mod Change
pub mod Admins
pub mod Linked
pub mod Guard
pub mod Tokens
pub mod Sessions
pub mod Opened
pub mod Logout
mod Tests
pub mod Api
