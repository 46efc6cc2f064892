-- ===== src/Thread.antt =====
-- MP5_Sources/thread.C (MP6 has the same but for one flag): class Thread, and the stack that its constructor sets up.
-- Memory is a word for each address; the stack is written and read at addresses four apart.
pub mod Context
mod Tests
use csce410_611_spring2026_p.Base.{
  ℕ, zero, suc, ◌+◌, ◌-◌, ◌*◌, ◌%◌, ◌<◌, ◌≤◌, ◌≡◌, ◌≢◌, refl, sym, ap, ◌∙◌, inl, inr, ◌⊎◌, Bool,
  true, false, ◌&&◌, ◌||◌, ◌/◌, ◌^◌, Option, some, none, List, [], ◌∷◌, ◌++◌, arith, ltb, ◌==◌,
  if◌then◌else◌, put, put_ne, put_self, ℕ_discrete, dec_lt, copy, field_of, with_field,
  with_field-lt, field_of-with_field, field_of-put, length, Bool-cases, word_size, leb,
}

abbrev pub kernel_cs : ℕ
kernel_cs = 0x08

abbrev pub kernel_ds : ℕ
kernel_ds = 0x10

pub record Thread : Type 0 where
  pub esp : ℕ
  pub thread_id : ℕ
  pub stack : ℕ
  pub stack_size : ℕ

-- The register context of machine.H that an exception in the kernel leaves on the stack, the lowest address first
pub record Regs : Type 0 where
  pub gs : ℕ
  pub fs : ℕ
  pub es : ℕ
  pub ds : ℕ
  pub edi : ℕ
  pub esi : ℕ
  pub ebp : ℕ
  pub esp : ℕ
  pub ebx : ℕ
  pub edx : ℕ
  pub ecx : ℕ
  pub eax : ℕ
  pub int_no : ℕ
  pub err_code : ℕ
  pub eip : ℕ
  pub cs : ℕ
  pub eflags : ℕ

-- A thread, memory, and the next thread number
pub record Machine : Type 0 where
  pub self : Thread
  pub memory : ℕ → ℕ
  pub next_free_pid : ℕ

unfoldable pub push : Machine → ℕ → Machine
push m val =
    let top = (word_size + m.self.esp - 4) % word_size in
    record m { self = record m.self { esp = top }; memory = put m.memory top val }

unfoldable pub push_all : List ℕ → Machine → Machine
push_all [] m = m
push_all (v ∷ vs) m = push_all vs (push m v)

-- The words that `setup_context` pushes, in its order; the addresses of `thread_shutdown` and `thread_start` are the
-- linker's.
abbrev pub context : (thread_shutdown thread_start tfunction : ℕ) → List ℕ
context thread_shutdown thread_start tfunction =
    0 ∷ thread_shutdown ∷ tfunction ∷ 0x200 ∷ kernel_cs ∷ thread_start ∷ 0 ∷ 0 ∷ 0 ∷ 0 ∷ 0 ∷ 0 ∷ 0
    ∷ 0 ∷ 0 ∷ 0 ∷ kernel_ds ∷ kernel_ds ∷ 0 ∷ 0 ∷ []

unfoldable pub setup_context : (thread_shutdown thread_start : ℕ) → Machine → ℕ → Machine
setup_context thread_shutdown thread_start m tfunction =
    push_all (context thread_shutdown thread_start tfunction) m

-- `Thread::Thread`, for the object `m.self`
unfoldable pub new_thread :
    (thread_shutdown thread_start : ℕ) → Machine → (tf stack stack_size : ℕ) → Machine
new_thread thread_shutdown thread_start m tf stack stack_size =
    setup_context thread_shutdown thread_start
      (record m {
        self = record {
          esp = (stack + stack_size) % word_size;
          thread_id = m.next_free_pid;
          stack = stack;
          stack_size = stack_size;
        };
        next_free_pid = (m.next_free_pid + 1) % word_size;
      })
      tf
