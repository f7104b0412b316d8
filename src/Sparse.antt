-- ===== src/Sparse.antt =====
-- src/sparse_binding.cpp: sparse resources, which the layer emulates by memory that is always
-- there.
pub mod Budget
