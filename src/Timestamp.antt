-- ===== src/Timestamp.antt =====
-- factDB/infra/types/Timestamp.cpp and Timestamp.hpp: dates and timestamps, read from text,
-- stored as milliseconds, and printed.
pub mod Calendar
pub mod Text
