-- ===== src/Containers.antt =====
-- The containers of the C++ standard library that the program uses: `std::map` with integer keys
-- and `std::set`, as ordered lists.
pub mod Maps
pub mod Sets
pub mod Occurrences
