-- ===== src/Vm.antt =====
-- The virtual machine (starkware/cairo/lang/vm/vm_core.py and virtual_machine_base.py).
pub mod State
pub mod Addresses
pub mod Deduction
pub mod Registers
pub mod Operands
pub mod Fills
pub mod Holds
pub mod Stages
pub mod ResValue
pub mod Settled
pub mod Run
