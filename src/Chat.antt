-- ===== src/Chat.antt =====
-- completion/openai_chat.go and completion/openai_stream.go: a response of the Chat Completions protocol,
-- assembled from a stream, and the rules for one that is accepted.
pub mod Messages
pub mod Replay
pub mod Reply
pub mod Stream
pub mod Streamed
pub mod Wire
