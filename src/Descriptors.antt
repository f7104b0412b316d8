-- ===== src/Descriptors.antt =====
-- src/descriptors.cpp and src/descriptors.hpp.
pub mod Tracking
pub mod Sets
pub mod Layouts
pub mod Updates
