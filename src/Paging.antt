-- ===== src/Paging.antt =====
-- The labs on paging: labs/lab_08_paging_intro.c (Translate, Intro), labs/lab_09_paging_deep.c (Faults),
-- labs/lab_10_addr_space_paging.c (Areas), labs/lab_11_tlb_hugepages.c and labs/lab_13_user_page_tables.c (Tables, Strides).
pub mod Translate
pub mod Frame
pub mod Intro
pub mod Areas
pub mod Faults
pub mod Tables
pub mod Strides
pub mod Clean
pub mod TablesClean
