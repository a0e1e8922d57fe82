-- ===== src/Delivery.antt =====
-- The two halves of src/split.rs and src/read.rs against each other.
pub mod EndToEnd
