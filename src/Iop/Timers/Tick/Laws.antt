-- ===== src/Iop/Timers/Tick/Laws.antt =====
-- What a whole tick of a timer does.
