-- ===== src/Parser.antt =====
-- `parse_scene` of backstitch/src/parser/godot_parser.rs: a scene of the sections of its text.
pub mod Attributes
pub mod Nodes
pub mod Sections
pub mod Placing
pub mod Attaching
pub mod Assembly
pub mod Linked
pub mod Links
pub mod Childless
pub mod Newborn
pub mod Forest
pub mod Climbing
