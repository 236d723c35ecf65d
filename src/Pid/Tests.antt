-- ===== src/Pid/Tests.antt =====
-- Pids at the widths of the unit tests.
use any_vm.Base.{◌≡◌, refl}
use any_vm.Pid.{apid_from}

packed : apid_from 4 4 3 5 ≡ 0x3500_0000
unfolding apid_from
packed = refl
