-- ===== src/Examples.antt =====
-- The theorems at concrete inputs, and the test cases of the source.
mod Wire
mod Messages
mod Crawl
mod Survey
mod Node
mod Session
mod Store
mod Reports
mod Api
mod Spelling
mod Seeds
mod Pages
