-- ===== src/Kernel/Ports.antt =====
-- `outb` of kernel/idt.h. What the code has written to the ports is a list, the latest write first.
use black_hole_os.Prelude.{ℕ, List, ◌∷◌}

pub record Output : Type 0 where
  pub port : ℕ
  pub value : ℕ

abbrev pub outb : ℕ → ℕ → List Output → List Output
outb port value outputs = record { port = port; value = value } ∷ outputs
