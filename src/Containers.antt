-- ===== src/Containers.antt =====
-- The containers that the pallets use: the ordered maps and sets of `sp_std`, and the maps of
-- Substrate's storage.
pub mod BTree
pub mod LinkedMap
