-- ===== src/Tests.antt =====
-- Runs of the model on concrete inputs: the theorems applied where their hypotheses hold.
mod Samples
mod Catalogue
mod Blobs
mod SignIn
mod Access
mod Limits
mod Journal
mod Json
mod Accounts
mod Handlers
