-- ===== src/Examples/Lists.antt =====
-- A list is made in the small machine, with no collection due.
use mathlib.Core.List.{Memᴰ}
use mathlib.Core.List.Memᴰ
use bonzai.Vm.{Module}
use bonzai.Gc.Collected.{Consistent}
use bonzai.Examples.Heaps.{start}

-- the same machine with no collection due
abbrev roomy : Module
roomy = record start { max_objects = 32 }
