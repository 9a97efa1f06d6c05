-- ===== src/Cgroup.antt =====
-- src/python/cgroup/cpu_use.c and memory_use.c, which use up processor and memory under a limit.
pub mod CpuUse
pub mod MemoryUse
