-- ===== src/Tests.antt =====
-- Examples: a library that keeps to the manual in place of OpenSSL, and the properties at concrete
-- inputs over it.
pub mod Toy
pub mod OverflowExamples
pub mod ReindexExamples
pub mod ToyKeys
pub mod WireExamples
pub mod FileData
pub mod FileExamples
pub mod DiskExamples
pub mod TransferExamples
pub mod ChannelExamples
pub mod ArrivalsExamples
pub mod SessionExamples
pub mod MemoryExamples
pub mod ReturnsExamples
pub mod DaemonExamples
pub mod AdapterExamples
pub mod BluetoothExamples
