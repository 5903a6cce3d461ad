-- ===== src/Checks.antt =====
-- The theorems at concrete trees, tabs, messages, keys and prompts.
mod Trees
mod Columns
mod Tabs
mod Batches
mod Remotes
mod Keys
mod Prompts
