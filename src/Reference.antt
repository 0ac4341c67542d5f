-- ===== src/Reference.antt =====
-- The references that are derived without running a guest: utils/x87_status_reference.py and
-- utils/cpu_jump_cache_reference.py.
pub mod X87
pub mod JumpCache
