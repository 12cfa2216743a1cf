-- ===== src/Kernel.antt =====
-- kernel/: the services of the kernel proper.
pub mod Memory
pub mod Paging
pub mod Gdt
pub mod Ports
pub mod Idt
pub mod Task
pub mod Isr
pub mod Boot
