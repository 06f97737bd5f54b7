-- ===== src/ByteBuffer.antt =====
-- src/byte_buffer.h and src/byte_buffer.cpp: a growing writer and a reader of numbers, strings and
-- varints. Each has a child with its operations and children with its laws.
pub mod Writer
pub mod Reader
pub mod Fields
