-- ===== src/Examples.antt =====
-- The theorems at concrete inputs: witnesses that their conditions can hold, and tests.
mod Hosts
mod Counts
mod Texts
mod Capabilities
mod Providers
mod Controls
mod Requests
mod Turns
mod Edges
mod Transcripts
mod Loops
mod Streams
mod Edits
mod Replacements
