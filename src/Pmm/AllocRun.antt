-- ===== src/Pmm/AllocRun.antt =====
-- `pmm_allocate_pages` of mm/pmm/pmm.c: the run it takes, and when it takes none.
pub mod Mark
pub mod Scan
pub mod Outcome
