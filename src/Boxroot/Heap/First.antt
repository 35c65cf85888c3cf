-- ===== src/Boxroot/Heap/First.antt =====
-- The first call of `boxroot_create`, from the static initialisers of boxroot/boxroot.c.
