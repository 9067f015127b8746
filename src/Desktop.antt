-- ===== src/Desktop.antt =====
-- src/desktop.rs: what the two windows keep, and the SSH configuration that they write.
pub mod Quote
pub mod QuoteLaws
pub mod Checks
pub mod ChecksLaws
pub mod SshConfig
pub mod SshConfigLaws
pub mod ClientApp
pub mod ClientAppLaws
pub mod ConnectApp
pub mod ConnectAppLaws
pub mod AliasLaws
pub mod PrivateFile
pub mod Settings
pub mod SettingsLaws
pub mod PrivateFileLaws
mod Tests
mod SettingsTests
