-- ===== src/Userproc/Copy.antt =====
-- What `CopyCodeData` of sys/tarfs.c copies.
