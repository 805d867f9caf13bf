-- ===== src/Examples.antt =====
-- Concrete inputs, and what the theorems say of them.
mod Data
mod Receiving
mod Pooling
mod Threading
mod Timing
mod Sending
mod Answering
mod Accepting
mod Closing
mod Configuring
mod Printing
mod Monitoring
mod Looping
mod Running
mod Naming
mod Starting
mod Logging
