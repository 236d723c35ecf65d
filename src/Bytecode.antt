-- ===== src/Bytecode.antt =====
-- Instructions, src/inc/any/rt_types.h: 32-bit words of an 8-bit opcode and a signed 24-bit operand.
pub mod Laws
mod Tests
use any_vm.Base.{ℕ, ℤ, pos, negsuc, ◌+◌, ◌-◌, ◌*◌, ◌/◌, ◌%◌, ◌^◌, ltb, ◌==◌, if◌then◌else◌}

-- One constructor for each `AOC_*`, with its operand; `bad` is any other opcode.
pub data Instr : Type 0 where
  nop brk : Instr
  pop ldk : ℤ → Instr
  nil : Instr
  ldb lsi llv slv imp cls jmp jin ivk : ℤ → Instr
  ret snd : Instr
  rcv : ℤ → Instr
  rmv rwd add sub mul div not eq lt le gt ge : Instr
  bad : ℕ → Instr

-- The bits of an `int32_t n : 24` field, and the number that they stand for.
abbrev pub field24 : ℤ → ℕ
field24 (pos n) = n % 2 ^ 24
field24 (negsuc n) = 2 ^ 24 - 1 - n % 2 ^ 24

abbrev pub signed24 : ℕ → ℤ
signed24 x = if ltb x (2 ^ 23) then pos x else negsuc (2 ^ 24 - 1 - x)

abbrev word : ℕ → ℕ → ℕ
word opcode field = opcode + 256 * field

-- The constructors `ai_nop` to `ai_ge`. Those with no operand leave the upper bits as they are:
-- `junk` stands for what was there.
pub encode : (junk : ℕ) → Instr → ℕ
encode junk Instr.nop = word 0 junk
encode junk Instr.brk = word 1 junk
encode junk (Instr.pop n) = word 2 (field24 n)
encode junk (Instr.ldk n) = word 10 (field24 n)
encode junk Instr.nil = word 11 junk
encode junk (Instr.ldb n) = word 12 (field24 n)
encode junk (Instr.lsi n) = word 13 (field24 n)
encode junk (Instr.llv n) = word 14 (field24 n)
encode junk (Instr.slv n) = word 15 (field24 n)
encode junk (Instr.imp n) = word 16 (field24 n)
encode junk (Instr.cls n) = word 17 (field24 n)
encode junk (Instr.jmp n) = word 30 (field24 n)
encode junk (Instr.jin n) = word 31 (field24 n)
encode junk (Instr.ivk n) = word 40 (field24 n)
encode junk Instr.ret = word 41 junk
encode junk Instr.snd = word 50 junk
encode junk (Instr.rcv n) = word 51 (field24 n)
encode junk Instr.rmv = word 52 junk
encode junk Instr.rwd = word 53 junk
encode junk Instr.add = word 60 junk
encode junk Instr.sub = word 61 junk
encode junk Instr.mul = word 62 junk
encode junk Instr.div = word 63 junk
encode junk Instr.not = word 70 junk
encode junk Instr.eq = word 71 junk
encode junk Instr.lt = word 72 junk
encode junk Instr.le = word 73 junk
encode junk Instr.gt = word 74 junk
encode junk Instr.ge = word 75 junk
encode junk (Instr.bad k) = word k junk

-- The dispatcher's reading of a word: `i->b.opcode` selects the member of the union.
decode_op : ℕ → ℤ → Instr
decode_op op n =
    if op == 0
    then Instr.nop
    else if op == 1
    then Instr.brk
    else if op == 2
    then Instr.pop n
    else if op == 10
    then Instr.ldk n
    else if op == 11
    then Instr.nil
    else if op == 12
    then Instr.ldb n
    else if op == 13
    then Instr.lsi n
    else if op == 14
    then Instr.llv n
    else if op == 15
    then Instr.slv n
    else if op == 16
    then Instr.imp n
    else if op == 17
    then Instr.cls n
    else if op == 30
    then Instr.jmp n
    else if op == 31
    then Instr.jin n
    else if op == 40
    then Instr.ivk n
    else if op == 41
    then Instr.ret
    else if op == 50
    then Instr.snd
    else if op == 51
    then Instr.rcv n
    else if op == 52
    then Instr.rmv
    else if op == 53
    then Instr.rwd
    else if op == 60
    then Instr.add
    else if op == 61
    then Instr.sub
    else if op == 62
    then Instr.mul
    else if op == 63
    then Instr.div
    else if op == 70
    then Instr.not
    else if op == 71
    then Instr.eq
    else if op == 72
    then Instr.lt
    else if op == 73
    then Instr.le
    else if op == 74
    then Instr.gt
    else if op == 75
    then Instr.ge
    else Instr.bad op

pub decode : ℕ → Instr
unfolding decode_op
decode w = decode_op (w % 256) (signed24 (w / 256))
