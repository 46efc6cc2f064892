-- ===== src/RoundRobin/Tests.antt =====
-- A scheduler with the memory pool of kernel.C: a run, and the theorem at it.
use csce410_611_spring2026_p.Base.Run.{ok}
use csce410_611_spring2026_p.MemPool.{new_frame_source, get_frame, new_mem_pool}
use csce410_611_spring2026_p.RoundRobin.{EoqTimer, new_scheduler}
use csce410_611_spring2026_p.RoundRobin.Promise.{
  Call, resumes, adds, yields, quantum_ends, fifo, fifo_calls, calls, Keeps,
}
use csce410_611_spring2026_p.RoundRobin.Queue.{calls-Keeps}
use csce410_611_spring2026_p.Base.{◌≡◌, refl, true, List, [], ◌∷◌, arith}

-- Thread 100 runs; the queue is not set up yet.
abbrev kernel : EoqTimer
kernel = record {
  timer = record { seconds = 0; ticks = 19; hz = 20 };
  scheduler = record {
    pool = 0x20_0000;
    thread = λ a. 7;
    next = λ a. 7;
    head = 7;
    tail = 7;
    current_thread = 100;
    interrupts = true;
  };
}

first_address : (new_mem_pool new_frame_source 256).0 ≡ kernel.scheduler.pool
unfolding new_mem_pool get_frame
first_address = refl

abbrev script : List Call
script = yields ∷ adds 200 ∷ adds 300 ∷ quantum_ends ∷ yields ∷ resumes 200 ∷ []

script_end : fifo_calls script (fifo [] 100) ≡ ok (fifo (100 ∷ 200 ∷ []) 300)
script_end = refl

calls-Keeps_example :
    Keeps 0
      (calls script (record kernel { scheduler = new_scheduler kernel.scheduler }))
      (fifo_calls script (fifo [] 100))
calls-Keeps_example = calls-Keeps script kernel (omega arith) (omega arith)
