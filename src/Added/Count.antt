-- ===== src/Added/Count.antt =====
-- What two calls of `do_pfcount` in 5/kernel/sys.c tell of the faults between them.
