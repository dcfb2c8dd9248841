-- ===== src/Cpu.antt =====
-- Descriptor tables and interrupts: kernel/src/cpu.
pub mod Gdt
pub mod Idt
pub mod Irq
pub mod Isr
mod Tests
