-- ===== src/Bytecode/Tests.antt =====
-- Words of single instructions.
use any_vm.Base.{pos, negsuc, ◌≡◌, refl, arith}
use any_vm.Bytecode.{Instr, encode, decode}
use any_vm.Bytecode.Laws.{decode-encode}

jump_back : encode 0 (Instr.jmp (negsuc 0)) ≡ 0xffff_ff1e
unfolding encode
jump_back = refl

-- An operand past the range of the field is cut to 24 bits without an error.
operand_cut : decode (encode 0 (Instr.lsi (pos 0x80_0000))) ≡ Instr.lsi (negsuc 0x7f_ffff)
unfolding encode decode
operand_cut = refl

decode-encode_example : decode (encode 7 (Instr.jmp (negsuc 2))) ≡ Instr.jmp (negsuc 2)
decode-encode_example = decode-encode 7 (Instr.jmp (negsuc 2)) (omega arith)
