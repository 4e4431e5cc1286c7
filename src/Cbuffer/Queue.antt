-- ===== src/Cbuffer/Queue.antt =====
-- The specification of include/cbuffer.h: a queue of at most `cap` characters, oldest first.
use ze_ospi.Base.{ℕ, List, [], ◌∷◌, ◌++◌, ltb, if◌then◌else◌, length, ℤ, pos, negsuc}

abbrev pub Queue : Type 0
Queue = List ℕ

unfoldable pub enqueue : ℕ → Queue → ℕ → ℤ × Queue
enqueue cap q x = if ltb (length q) cap then (pos 0, q ++ x ∷ []) else (negsuc 0, q)
