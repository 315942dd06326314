-- ===== src/IdGen.antt =====
-- internal/idgen/idgen.go: the Snowflake generator of 64-bit ids and the block-cipher codec.
pub mod Snowflake
pub mod Codec
