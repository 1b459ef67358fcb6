-- ===== src/Examples.antt =====
-- Concrete runs of the modelled code, on one machine of a simulated vCenter.
mod Machine
mod Stores
mod Program
mod Requests
mod Served
mod Pooling
mod Devices
mod Operators
mod Caching
mod Deployment
mod Customizing
mod Tokens
mod Helpers
