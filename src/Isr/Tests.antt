-- ===== src/Isr/Tests.antt =====
-- A call that ends a program, on the disk of Fat/Tests.
use ring_os.Prelude.{ℕ, List, [], ◌∷◌}
use ring_os.Fat.Tests.{readme_name}
use ring_os.FileIo.Tests.{small_io}
use ring_os.Isr.{Registers, Kernel, Space}

abbrev exit_call : Registers
exit_call = record { int_no = 0x80; eax = 0; ebx = 65; ecx = 0; edx = 0 }

abbrev kernel : Kernel (ℕ → List ℕ)
kernel = record {
  io = small_io;
  vga = record { buffer = λ p. 0; color = 15; cursor_pos = 0; ports = [] };
  cmd_index = 4;
}

abbrev space : Space
space = record {
  text_at = λ p. b'A' ∷ [];
  bytes_from = λ p. readme_name;
  empty_literal = 0;
  tail = [];
}
