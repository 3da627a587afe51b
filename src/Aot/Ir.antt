-- ===== src/Aot/Ir.antt =====
-- The IR of include/nan_aot_compiler.h. A `uint64_t` is a number below 2^64.
use optimized_nan_lang.Base.{Bytes, ℕ, List, []}

pub data IrOp : Type 0 where
  mov load store : IrOp
  add sub mul div modulo : IrOp
  and or xor not_op : IrOp
  shl shr rot : IrOp
  jmp jeq jne jlt jle jgt jge call ret : IrOp
  syscall print halt : IrOp

pub data Kind : Type 0 where
  immediate register memory label : Kind

pub record IrValue : Type 0 where
  pub kind : Kind
  pub value : ℕ
  pub name : Bytes

-- `label` is the text of a PRINT.
pub record IrInstruction : Type 0 where
  pub op : IrOp
  pub dst : IrValue
  pub src1 : IrValue
  pub src2 : IrValue
  pub label : Bytes

pub record IrBasicBlock : Type 0 where
  pub label : Bytes
  pub instructions : List IrInstruction

pub record IrFunction : Type 0 where
  pub name : Bytes
  pub blocks : List IrBasicBlock
  pub stack_size : ℕ

abbrev pub no_value : IrValue
no_value = record { kind = Kind.immediate; value = 0; name = [] }

-- `IRInstruction(op)` with a label.
abbrev pub instruction : IrOp → Bytes → IrInstruction
instruction op text = record {
  op = op;
  dst = no_value;
  src1 = no_value;
  src2 = no_value;
  label = text;
}
