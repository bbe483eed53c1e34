-- ===== src/Attributes.antt =====
-- Attribute sets and sets of attribute values: src/attribute_set_impl.hpp and
-- src/attribute_value_set.cpp.
pub mod Nodes
pub mod Values
mod Tests
