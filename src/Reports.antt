-- ===== src/Reports.antt =====
-- The labs whose main part is to read files of /proc and /sys and the output of commands, and to print lines of them.
-- A command that `popen` starts is a file named by the command, and `pclose` is `closes`.
pub mod KernelMemory
pub mod PhysicalMemory
pub mod Delivery
pub mod Recovery
pub mod Clean
pub mod Boot
pub mod Scheduler
pub mod Memory
pub mod Locality
pub mod Filesystem
pub mod Machines
pub mod Cloud
pub mod FilesClean
pub mod CloudClean
pub mod Release
