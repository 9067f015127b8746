-- ===== src/Server.antt =====
-- src/server.rs: authentication, token files, the registry of agents and their pending sessions.
pub mod Auth
pub mod Tokens
pub mod Devices
pub mod DevicesLaws
pub mod EnrolLaws
pub mod LoadLaws
pub mod SortLaws
pub mod TokensLaws
pub mod ReloadLaws
pub mod Calls
pub mod Session
pub mod Controller
pub mod Connection
pub mod Logs
pub mod SessionLaws
pub mod ControllerLaws
pub mod ConnectionLaws
pub mod Registry
pub mod Permits
pub mod PermitsLaws
pub mod RegistryLaws
pub mod OwnerLaws
pub mod Agent
pub mod AgentLaws
pub mod AuthLaws
mod Tests
mod EnrolTests
mod PermitsTests
