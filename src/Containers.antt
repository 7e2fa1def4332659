-- ===== src/Containers.antt =====
-- `std::set`, and `std::map` and `std::unordered_map`, as the repository's code uses them.
pub mod Set
pub mod Map
