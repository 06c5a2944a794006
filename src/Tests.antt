-- ===== src/Tests.antt =====
-- The theorems at concrete inputs.
mod Operations
mod Accounts
mod Requests
mod Numbers
mod Codec
mod Wire
mod Sharing
mod Connection
mod Finished
mod Queue
