-- ===== src/Orders.antt =====
-- The orders example: examples/orders and examples/orders-http.
pub mod Values
pub mod Order
pub mod Projection
pub mod Wire
pub mod App
pub mod Http
pub mod Program
