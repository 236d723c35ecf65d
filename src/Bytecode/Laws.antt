-- ===== src/Bytecode/Laws.antt =====
-- The dispatcher reads back each instruction that its constructor writes.
use any_vm.Base.{
  ℕ, ℤ, pos, negsuc, ◌/◌, ◌%◌, ◌^◌, ◌<◌, ◌≡◌, refl, ap, ap₂, ◌∙◌, arith, ◌==◌, leb, Bool, true,
  false, ◌&&◌, ◌||◌, ==_iff, passes_under, passes_under_sound,
}
use any_vm.Bytecode.{Instr, field24, signed24, word, encode, decode_op, decode}

-- The operand lies in the range of a signed 24-bit field.
abbrev pub FitsField : ℤ → Type 0
FitsField (pos n) = n < 2 ^ 23
FitsField (negsuc n) = n < 2 ^ 23

-- The opcodes of the enumeration.
abbrev pub known : ℕ → Bool
known k =
    leb k 2
    || (leb 10 k && leb k 17)
    || (leb 30 k && leb k 31)
    || (leb 40 k && leb k 41)
    || (leb 50 k && leb k 53)
    || (leb 60 k && leb k 63)
    || (leb 70 k && leb k 75)

-- The operand of an instruction, if it has one, fits; any other opcode is a byte outside the
-- enumeration.
abbrev pub Fits : Instr → Type 0
Fits (Instr.pop n) = FitsField n
Fits (Instr.ldk n) = FitsField n
Fits (Instr.ldb n) = FitsField n
Fits (Instr.lsi n) = FitsField n
Fits (Instr.llv n) = FitsField n
Fits (Instr.slv n) = FitsField n
Fits (Instr.imp n) = FitsField n
Fits (Instr.cls n) = FitsField n
Fits (Instr.jmp n) = FitsField n
Fits (Instr.jin n) = FitsField n
Fits (Instr.ivk n) = FitsField n
Fits (Instr.rcv n) = FitsField n
Fits (Instr.bad k) = (known k ≡ false) × (k < 256)
Fits _ = Unit {0}

signed24-field24 : (n : ℤ) → FitsField n → signed24 (field24 n) ≡ n
signed24-field24 (pos n) h = ground arith
signed24-field24 (negsuc n) h = ground arith

decode-word : (op field : ℕ) → op < 256 → decode (word op field) ≡ decode_op op (signed24 field)
unfolding decode
decode-word op field h = ap₂ decode_op opcode (ap signed24 payload)
  where
    opcode : word op field % 256 ≡ op
    opcode = omega arith

    payload : word op field / 256 ≡ field
    payload = omega arith

operand : (op : ℕ) (n : ℤ) → op < 256 → FitsField n → decode (word op (field24 n)) ≡ decode_op op n
operand op n h fits = decode-word op (field24 n) h ∙ ap (decode_op op) (signed24-field24 n fits)

abbrev is_bad : ℕ → Instr → Bool
is_bad k (Instr.bad j) = j == k
is_bad k _ = false

is_bad→eq : (k : ℕ) (i : Instr) → is_bad k i ≡ true → i ≡ Instr.bad k
is_bad→eq k (Instr.bad j) h = ap Instr.bad ((==_iff j k).0 h)
is_bad→eq k Instr.nop h = cc
is_bad→eq k i h = cc

-- Every byte, checked by evaluation.
bytes_checked : (n : ℤ) → passes_under (λ k. known k || is_bad k (decode_op k n)) 256 ≡ true
unfolding passes_under decode_op
bytes_checked n = refl

unknown : (k : ℕ) (n : ℤ) → known k ≡ false → k < 256 → decode_op k n ≡ Instr.bad k
unknown k n new lt = is_bad→eq k (decode_op k n) (
    ground (
      arith,
      passes_under_sound (λ j. known j || is_bad j (decode_op j n)) 256 k (bytes_checked n) lt,
    ))

-- An instruction whose operand fits in 24 bits, or an unknown 8-bit opcode, is decoded from its
-- encoding as it was, whatever the unused bits hold.
pub decode-encode : (junk : ℕ) (i : Instr) → Fits i → decode (encode junk i) ≡ i
unfolding encode decode_op
decode-encode junk (Instr.pop n) h = operand 2 n (omega arith) h
decode-encode junk (Instr.ldk n) h = operand 10 n (omega arith) h
decode-encode junk (Instr.ldb n) h = operand 12 n (omega arith) h
decode-encode junk (Instr.lsi n) h = operand 13 n (omega arith) h
decode-encode junk (Instr.llv n) h = operand 14 n (omega arith) h
decode-encode junk (Instr.slv n) h = operand 15 n (omega arith) h
decode-encode junk (Instr.imp n) h = operand 16 n (omega arith) h
decode-encode junk (Instr.cls n) h = operand 17 n (omega arith) h
decode-encode junk (Instr.jmp n) h = operand 30 n (omega arith) h
decode-encode junk (Instr.jin n) h = operand 31 n (omega arith) h
decode-encode junk (Instr.ivk n) h = operand 40 n (omega arith) h
decode-encode junk (Instr.rcv n) h = operand 51 n (omega arith) h
decode-encode junk Instr.nop h = decode-word 0 junk (omega arith)
decode-encode junk Instr.brk h = decode-word 1 junk (omega arith)
decode-encode junk Instr.nil h = decode-word 11 junk (omega arith)
decode-encode junk Instr.ret h = decode-word 41 junk (omega arith)
decode-encode junk Instr.snd h = decode-word 50 junk (omega arith)
decode-encode junk Instr.rmv h = decode-word 52 junk (omega arith)
decode-encode junk Instr.rwd h = decode-word 53 junk (omega arith)
decode-encode junk Instr.add h = decode-word 60 junk (omega arith)
decode-encode junk Instr.sub h = decode-word 61 junk (omega arith)
decode-encode junk Instr.mul h = decode-word 62 junk (omega arith)
decode-encode junk Instr.div h = decode-word 63 junk (omega arith)
decode-encode junk Instr.not h = decode-word 70 junk (omega arith)
decode-encode junk Instr.eq h = decode-word 71 junk (omega arith)
decode-encode junk Instr.lt h = decode-word 72 junk (omega arith)
decode-encode junk Instr.le h = decode-word 73 junk (omega arith)
decode-encode junk Instr.gt h = decode-word 74 junk (omega arith)
decode-encode junk Instr.ge h = decode-word 75 junk (omega arith)
decode-encode junk (Instr.bad k) h = decode-word k junk h.1 ∙ unknown k (signed24 junk) h.0 h.1
