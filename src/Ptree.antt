-- ===== src/Ptree.antt =====
-- The ptree system call (Project1/submit/Prom1/ptree.c) and its client
-- (Project1/submit/Prom2/jni/test_for_ptree.c).
pub mod Defs
pub mod Preorder
pub mod Printed
