-- ===== src/Std.antt =====
-- The ordered containers of the C++ standard library that the program uses: `std::set` as a sorted
-- list, and `std::map` as an association list sorted by its keys.
pub mod Order
pub mod Set
pub mod Bytes
pub mod Stream
pub mod Map
pub mod OrderedMap
