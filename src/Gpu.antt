-- ===== src/Gpu.antt =====
-- learning/gpu-operator-dra/examples and learning/gpu-programming/examples: device allocation,
-- memory coalescing and tiled multiplication.
pub mod Allocation
pub mod Coalescing
pub mod Matmul
mod Tests
