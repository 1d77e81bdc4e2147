-- ===== src/Category.antt =====
-- internal/features/category: the tree of categories.
pub mod Domain
pub mod Repository
pub mod Service
pub mod Tree
pub mod Moves
pub mod Requests
