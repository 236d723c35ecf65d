-- ===== src/Pid.antt =====
-- Process identifiers, src/inc/any/rt_types.h: a `uint32_t` that holds the index of a process slot
-- in its upper bits and a generation below it. The widths are an `int8_t` each; a word is a number
-- below 2 ^ 32, and a left shift drops what leaves the word. A shift by 32 is undefined in C, so the
-- code needs at least one bit of index and one of generation; what stands here for a width of 0 is
-- not used.
pub mod Laws
mod Tests
use Prim.Native.Nat.{bit_or}
use any_vm.Base.{ℕ, ◌-◌, ◌*◌, ◌/◌, ◌%◌, ◌^◌}

-- `APID_BITS`
abbrev pub apid_bits : ℕ
apid_bits = 32

abbrev pub apid_mod : ℕ
apid_mod = 2 ^ 32

-- `x << k` on a `uint32_t`
unfoldable pub shl32 : ℕ → ℕ → ℕ
shl32 x k = x * 2 ^ k % apid_mod

unfoldable pub apid_from : (idx_bits gen_bits idx gen : ℕ) → ℕ
unfolding shl32
apid_from idx_bits gen_bits idx gen =
    bit_or (shl32 idx (apid_bits - idx_bits)) (shl32 gen (apid_bits - idx_bits - gen_bits))

unfoldable pub apid_idx : (idx_bits pid : ℕ) → ℕ
apid_idx idx_bits pid = pid / 2 ^ (apid_bits - idx_bits)

unfoldable pub apid_gen : (idx_bits gen_bits pid : ℕ) → ℕ
unfolding shl32
apid_gen idx_bits gen_bits pid = shl32 pid idx_bits / 2 ^ (apid_bits - gen_bits)
