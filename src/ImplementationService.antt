-- ===== src/ImplementationService.antt =====
-- backend/app/services/implementation_service.py: from an approved plan to a tested patch. Scope and Sources say which files
-- a patch may replace and read them, Source checks a run's records against its repository, Running
-- joins the store, the patch service and the test runner, and Failures and Processing deal with
-- what they raise.
pub mod Scope
pub mod Sources
pub mod Failures
pub mod Returned
pub mod Processing
pub mod Source
pub mod Running
pub mod Checkpoint
pub mod Requests
mod Examples
