-- ===== src/Thread/Context.antt =====
-- MP5_Sources/thread.C: what stands on the stack of a new thread.
use csce410_611_spring2026_p.Thread.{
  Regs, Machine, kernel_cs, kernel_ds, push, push_all, context, setup_context, new_thread,
}
use csce410_611_spring2026_p.Base.{
  ℕ, zero, suc, ◌+◌, ◌-◌, ◌*◌, ◌%◌, ◌<◌, ◌≤◌, ◌≡◌, refl, ap, put_self, ◌∙◌, inr, ◌⊎◌, Option, some,
  none, List, [], ◌∷◌, ◌++◌, arith, put, put_ne, put_self, length, word_size,
}

-- `n` words of memory from `a` on
abbrev pub words_at : (ℕ → ℕ) → (a n : ℕ) → List ℕ
words_at memory a zero = []
words_at memory a (suc n) = memory a ∷ words_at memory (a + 4) n

-- An interrupt return takes the context off the stack, the lowest address first, and leaves the words behind it.
abbrev pub interrupt_return : List ℕ → Option (Regs × List ℕ)
interrupt_return
      (the_gs ∷ the_fs ∷ the_es ∷ the_ds ∷ the_edi ∷ the_esi ∷ the_ebp ∷ the_esp ∷ the_ebx ∷ the_edx
        ∷ the_ecx ∷ the_eax ∷ the_int_no ∷ the_err_code ∷ the_eip ∷ the_cs ∷ the_eflags ∷ rest) =
    some (
      record {
        gs = the_gs;
        fs = the_fs;
        es = the_es;
        ds = the_ds;
        edi = the_edi;
        esi = the_esi;
        ebp = the_ebp;
        esp = the_esp;
        ebx = the_ebx;
        edx = the_edx;
        ecx = the_ecx;
        eax = the_eax;
        int_no = the_int_no;
        err_code = the_err_code;
        eip = the_eip;
        cs = the_cs;
        eflags = the_eflags;
      },
      rest,
    )
interrupt_return short = none

abbrev backwards : List ℕ → List ℕ
backwards [] = []
backwards (v ∷ vs) = backwards vs ++ (v ∷ [])

words_at-snoc :
    (memory : ℕ → ℕ) (a n : ℕ)
    → words_at memory a (suc n) ≡ words_at memory a n ++ (memory (a + 4 * n) ∷ [])
words_at-snoc memory a zero = let at : a + 4 * 0 ≡ a = omega arith in rw at refl
words_at-snoc memory a (suc n) =
    let at : a + 4 + 4 * n ≡ a + 4 * suc n = omega arith in
    ap (λ l. memory a ∷ l)
      (words_at-snoc memory (a + 4) n ∙ ap (λ b. words_at memory (a + 4) n ++ (memory b ∷ [])) at)

push_all-words_at :
    (vs : List ℕ) (m : Machine) (low : ℕ)
    → m.self.esp ≡ low + 4 * length vs
    → m.self.esp < word_size
    → (let m' = push_all vs m in
        (m'.self ≡ record m.self { esp = low })
        × (m'.next_free_pid ≡ m.next_free_pid)
        × (words_at m'.memory low (length vs) ≡ backwards vs)
        × ((a : ℕ) → (a < low) ⊎ (m.self.esp ≤ a) → m'.memory a ≡ m.memory a))
unfolding push_all push
push_all-words_at [] m low e fits =
    (ap (λ a. record m.self { esp = a }) (omega arith), refl, refl, λ a out. refl)
push_all-words_at (v ∷ vs) m low e fits =
    let down : (word_size + m.self.esp - 4) % word_size ≡ low + 4 * length vs = omega arith in
    let (same, pid, words, outside) = push_all-words_at vs (push m v) low down (omega arith) in
    let here : (push_all vs (push m v)).memory (low + 4 * length vs) ≡ v =
      outside (low + 4 * length vs) (inr (omega arith))
      ∙ ap (λ t. put m.memory t v (low + 4 * length vs)) down
      ∙ put_self m.memory (low + 4 * length vs) v in
    (
      same,
      pid,
      words_at-snoc (push_all vs (push m v)).memory low (length vs)
          ∙ ap (λ l. l ++ ((push_all vs (push m v)).memory (low + 4 * length vs) ∷ [])) words
          ∙ ap (λ x. backwards vs ++ (x ∷ [])) here,
      λ a out.
          outside a (ground arith)
          ∙ put_ne m.memory ((word_size + m.self.esp - 4) % word_size) a v (ground arith),
    )

-- A new thread whose stack has room for its context and ends below 2^32 has the next thread number, which goes up,
-- and its stack pointer 80 bytes below the stack's end. An interrupt return there enters `thread_start` with the
-- kernel's segments, interrupts enabled and all general registers 0, and finds on the stack the thread function, then
-- the shutdown function as the address to return to, then the argument 0. Memory outside these 80 bytes is unchanged.
pub new_thread-context :
    (thread_shutdown thread_start : ℕ) (m : Machine) (tf stack stack_size : ℕ)
    → 80 ≤ stack_size
    → stack + stack_size < word_size
    → (let m' = new_thread thread_shutdown thread_start m tf stack stack_size in
        (m'.self.thread_id ≡ m.next_free_pid)
        × (m'.next_free_pid ≡ (m.next_free_pid + 1) % word_size)
        × (m'.self.esp ≡ stack + (stack_size - 80))
        × (interrupt_return (words_at m'.memory m'.self.esp 20)
            ≡ some (
              record {
                gs = 0;
                fs = 0;
                es = kernel_ds;
                ds = kernel_ds;
                edi = 0;
                esi = 0;
                ebp = 0;
                esp = 0;
                ebx = 0;
                edx = 0;
                ecx = 0;
                eax = 0;
                int_no = 0;
                err_code = 0;
                eip = thread_start;
                cs = kernel_cs;
                eflags = 0x200;
              },
              tf ∷ thread_shutdown ∷ 0 ∷ [],
            ))
        × ((a : ℕ) → (a < m'.self.esp) ⊎ (stack + stack_size ≤ a) → m'.memory a ≡ m.memory a))
unfolding new_thread setup_context
new_thread-context thread_shutdown thread_start m tf stack stack_size room fits =
    let start = record m {
      self = record {
        esp = (stack + stack_size) % word_size;
        thread_id = m.next_free_pid;
        stack = stack;
        stack_size = stack_size;
      };
      next_free_pid = (m.next_free_pid + 1) % word_size;
    } in
    let m' = push_all (context thread_shutdown thread_start tf) start in
    let (same, pid, words, outside) =
      push_all-words_at (context thread_shutdown thread_start tf) start (stack + (stack_size - 80))
        (omega arith) (omega arith) in
    let top : m'.self.esp ≡ stack + (stack_size - 80) = ap (λ t. t.esp) same in
    (
      ap (λ t. t.thread_id) same,
      pid,
      top,
      ap (λ a. interrupt_return (words_at m'.memory a 20)) top ∙ ap interrupt_return words,
      λ a out. outside a (ground arith),
    )
