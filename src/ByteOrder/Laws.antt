-- ===== src/ByteOrder/Laws.antt =====
-- The accessors of src/byte_order.h as sums of bytes; network order does not depend on the host.
pub mod Gets
pub mod Sets
pub mod Network
