-- ===== src/Thread/Tests.antt =====
-- A new thread on a stack of 1024 bytes.
use csce410_611_spring2026_p.Thread.{Machine, new_thread, kernel_cs, kernel_ds}
use csce410_611_spring2026_p.Thread.Context.{interrupt_return, words_at, new_thread-context}
use csce410_611_spring2026_p.Base.{ℕ, ◌<◌, ◌≤◌, ◌≡◌, ◌⊎◌, some, [], ◌∷◌, arith}

abbrev before : Machine
before = record {
  self = record { esp = 9; thread_id = 9; stack = 9; stack_size = 9 };
  memory = λ a. 0xcc;
  next_free_pid = 3;
}

new_thread-context_example :
    (let m' = new_thread 0x1000 0x1100 before 0x1200 0x20_0000 1024 in
      (m'.self.thread_id ≡ 3)
      × (m'.next_free_pid ≡ 4)
      × (m'.self.esp ≡ 0x20_03b0)
      × (interrupt_return (words_at m'.memory m'.self.esp 20)
          ≡ some (
            record {
              gs = 0;
              fs = 0;
              es = kernel_ds;
              ds = kernel_ds;
              edi = 0;
              esi = 0;
              ebp = 0;
              esp = 0;
              ebx = 0;
              edx = 0;
              ecx = 0;
              eax = 0;
              int_no = 0;
              err_code = 0;
              eip = 0x1100;
              cs = kernel_cs;
              eflags = 0x200;
            },
            0x1200 ∷ 0x1000 ∷ 0 ∷ [],
          ))
      × ((a : ℕ) → (a < m'.self.esp) ⊎ (0x20_0400 ≤ a) → m'.memory a ≡ before.memory a))
new_thread-context_example =
    new_thread-context 0x1000 0x1100 before 0x1200 0x20_0000 1024 (omega arith) (omega arith)
