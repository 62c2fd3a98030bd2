-- ===== src/FileLogger.antt =====
-- file-logger.c: entries are queued, gathered in one string and written to a stream by one
-- asynchronous operation at a time. The stream is GIO's: it takes one operation at a time, a write
-- appends a part of the string to the file, and its callback runs once the operation is over.
pub mod State
pub mod Methods
pub mod Events
pub mod Contents
pub mod Writes
pub mod Conservation
pub mod Stuck
pub mod Frozen
pub mod Rotation
pub mod Untouched
pub mod Unnamed
