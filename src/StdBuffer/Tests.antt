-- ===== src/StdBuffer/Tests.antt =====
-- A buffer with two bytes in use.
use any_vm.Base.{
  ℕ, pos, negsuc, zero, suc, ◌%◌, ◌^◌, ◌<◌, ◌≡◌, ◌⊎◌, refl, some_inj, List, [], ◌∷◌, arith, set,
}
use any_vm.Errno.{AError}
use any_vm.Value.{AType, Value, Vec, Obj}
use any_vm.Machine.{Actor}
use any_vm.Word.{bits64}
use any_vm.Operand.{push, error}
use any_vm.Sample.{env, native_call, native_call-IsActor}
use any_vm.Growable.{with_object}
use any_vm.Growable.Args.{Outside}
use any_vm.Growable.Laws.{IsVec, contents}
use any_vm.StdBuffer.{lset, lset_sint_le, be_round, rounds}
use any_vm.StdBuffer.Elements.{lset-byte}
use any_vm.StdBuffer.Bits.{Bytes}
use any_vm.StdBuffer.Stored.{StoredBits}
use any_vm.StdBuffer.Integers.{lset_sint_le-StoredBits}
use any_vm.StdBuffer.Lost.{be_loses_lowest}

abbrev fresh : ℕ → ℕ
fresh i = 0xcc

abbrev two : Vec ℕ
two = record { cap = 2; sz = 2; slots = 1 ∷ 255 ∷ [] }

abbrev self : Value
self = Value.collectable AType.buffer 0

abbrev writing : Actor
writing =
    native_call (Value.integer (negsuc 0) ∷ Value.integer (pos 0) ∷ self ∷ []) (Obj.buffer two ∷ [])

lset-byte_example :
    ((j : ℕ) × (w : Vec ℕ) × (pos 0 ≡ pos j)
      × (j < 2)
      × IsVec w
      × (contents w ≡ set (contents two) j (bits64 (negsuc 0) % 2 ^ 8))
      × (lset env fresh writing ≡ push env Value.nil (with_object writing 0 (Obj.buffer w))))
    ⊎ Outside 2 (pos 0)
      × (lset env fresh writing ≡ error env AError.runtime "bad index %lld" (pos 0 ∷ []) writing)
lset-byte_example =
    lset-byte env fresh
      (native_call-IsActor (Value.integer (negsuc 0) ∷ Value.integer (pos 0) ∷ self ∷ [])
        (Obj.buffer two ∷ []) (omega arith))
      (record { arg = record { within = omega arith; value = refl }; here = refl })
      (record { used = omega arith; storage = refl }) (pos 0) (negsuc 0)
      (record { within = omega arith; value = refl })
      (record { within = omega arith; value = refl })

two-Bytes : Bytes (1 ∷ 255 ∷ [])
two-Bytes zero b e = omega (arith, some_inj e)
two-Bytes (suc zero) b e = omega (arith, some_inj e)
two-Bytes (suc (suc i)) b e = absurd (cc e)

abbrev args : List Value
args = Value.integer (pos 12) ∷ Value.integer (pos 0) ∷ Value.integer (pos 300) ∷ self ∷ []

abbrev storing : Actor
storing = native_call args (Obj.buffer two ∷ [])

lset_sint_le-StoredBits_example :
    (bs : List ℕ) × StoredBits (pos 300) 0 0 12 two.slots bs
    × (lset_sint_le env fresh storing
        ≡ push env Value.nil (with_object storing 0 (Obj.buffer (record two { slots = bs }))))
lset_sint_le-StoredBits_example =
    lset_sint_le-StoredBits env fresh (native_call-IsActor args (Obj.buffer two ∷ []) (omega arith))
      (record { arg = record { within = omega arith; value = refl }; here = refl }) (pos 300) 0 12
      (record { within = omega arith; value = refl })
      (record { within = omega arith; value = refl })
      (record { within = omega arith; value = refl }) two-Bytes (omega arith) (omega arith)

be_loses_lowest_example :
    rounds (be_round (pos 301) (pos 0)) 0 8 (1 ∷ 255 ∷ [])
    ≡ rounds (be_round (pos 300) (pos 0)) 0 8 (1 ∷ 255 ∷ [])
be_loses_lowest_example = be_loses_lowest 150 0 (omega arith) 8 (1 ∷ 255 ∷ []) two-Bytes
