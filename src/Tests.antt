-- ===== src/Tests.antt =====
-- The theorems at concrete inputs, and a small instance of the JSON interface to run packets with.
mod Chars
mod Sample
mod MuxerRuns
mod LoopRuns
mod LanSample
mod FixedPoint
mod LanRuns
mod ManagerRuns
mod BatteryRuns
mod ClipboardRuns
mod OutputRuns
mod PacketRuns
mod DeviceRuns
mod NameRuns
mod ComponentRuns
mod MousepadRuns
mod TelephonyRuns
mod SystemvolumeRuns
mod TransferRuns
