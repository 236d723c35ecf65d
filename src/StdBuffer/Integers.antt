-- ===== src/StdBuffer/Integers.antt =====
-- `set_sint_le/4` of src/private/std_buffer_bits.c on a buffer.
use any_vm.Base.{ℕ, ℤ, pos, ◌+◌, ◌*◌, ◌≤◌, ◌≡◌, refl, List, arith, length}
use any_vm.Value.{AType, Value, Vec, Obj}
use any_vm.Machine.{Actor, Env}
use any_vm.Safe.{IsActor}
use any_vm.Operand.{push}
use any_vm.Growable.{with_object}
use any_vm.Growable.Args.{Arg, check_index-Arg, check_integer-Arg, check_type-Arg}
use any_vm.Growable.Laws.{Holds, vec_at-Holds}
use any_vm.StdBuffer.{buffer_kind, lset_sint_le}
use any_vm.StdBuffer.Bits.{Bytes}
use any_vm.StdBuffer.Stored.{StoredBits, le-StoredBits}

module _ (env : Env) (fresh : ℕ → ℕ) {a : Actor} {h : ℕ} {v : Vec ℕ} (valid : IsActor a)
    (g : Holds (buffer_kind fresh) a 0 h v) where
  -- In a native function with a buffer, an integer, a start at a whole byte and a number of bits
  -- up to 64 as its last arguments, the bits lying inside the storage of the buffer:
  -- set_sint_le/4 of std-buffer-bits stores the bits of the two's complement of the integer, the
  -- lowest first, changes no other bit, and pushes nil.
  pub lset_sint_le-StoredBits :
      (val : ℤ) (q n : ℕ)
      → Arg a 1 (Value.integer val)
      → Arg a 2 (Value.integer (pos (8 * q)))
      → Arg a 3 (Value.integer (pos n))
      → Bytes v.slots
      → n ≤ 64
      → 8 * q + n ≤ 8 * length v.slots
      → (bs : List ℕ) × StoredBits val q 0 n v.slots bs
        × (lset_sint_le env fresh a
            ≡ push env Value.nil (with_object a h (Obj.buffer (record v { slots = bs }))))
  unfolding lset_sint_le
  lset_sint_le-StoredBits val q n arg start len bytes width room =
      let (bs, e, s) = le-StoredBits val q n 0 v.slots bytes (omega arith) (omega arith) in
      (
        bs,
        s,
        rw (check_index-Arg env valid g.arg) (
            rw (check_index-Arg env valid arg) (
              rw (check_index-Arg env valid start) (
                rw (check_index-Arg env valid len) (
                  rw (check_type-Arg env valid g.arg AType.buffer "not buffer" refl) (
                    rw (vec_at-Holds env (buffer_kind fresh) valid g) (
                      rw (check_integer-Arg env valid arg) (
                        rw (check_integer-Arg env valid start)
                          (rw (check_integer-Arg env valid len) (rw e refl))))))))),
      )
