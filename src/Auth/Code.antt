-- ===== src/Auth/Code.antt =====
-- Server/AuthServer/Authentication/AuthCodes.h: the results that are sent.
use mmo_wow.Prelude.{ℕ}

abbrev pub success : ℕ
success = 0x00

abbrev pub banned : ℕ
banned = 0x03

abbrev pub unknown_account : ℕ
unknown_account = 0x04

abbrev pub db_busy : ℕ
db_busy = 0x08

abbrev pub version_invalid : ℕ
version_invalid = 0x09

abbrev pub suspended : ℕ
suspended = 0x0C

abbrev pub locked_enforced : ℕ
locked_enforced = 0x10

abbrev pub unlockable_lock : ℕ
unlockable_lock = 0x19
