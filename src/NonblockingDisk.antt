-- ===== src/NonblockingDisk.antt =====
-- MP6_Sources/nonblocking_disk.C: the threads that wait for the disk, and how they are woken.
-- A request stands on the stack of its thread and is its address; null is 0. The fields of the requests are two
-- functions of the address. The status of the disk, read from a port, is an argument.
pub mod Queue
pub mod Promise
pub mod Wake
mod Tests
use csce410_611_spring2026_p.Base.Run.{Run, ok, halted, out_of_fuel, ◌>>=◌}
use csce410_611_spring2026_p.Scheduler.{Scheduler, yield, resume}
use csce410_611_spring2026_p.Base.{Bool, not, ℕ, ◌==◌, if◌then◌else◌, ◌&&◌, put}

-- The disk object, the requests in memory, and the scheduler
pub record NonblockingDisk : Type 0 where
  pub thread : ℕ → ℕ
  pub next : ℕ → ℕ
  pub queue_head : ℕ
  pub queue_tail : ℕ
  pub scheduler : Scheduler

-- The constructor, less the registration as the handler of interrupt 14
unfoldable pub new_disk : NonblockingDisk → NonblockingDisk
new_disk d = record d { queue_head = 0; queue_tail = 0 }

unfoldable pub enqueue_request : NonblockingDisk → ℕ → NonblockingDisk
enqueue_request d req =
    let ended = put d.next req 0 in
    if d.queue_tail == 0
    then record d { next = ended; queue_head = req; queue_tail = req }
    else record d { next = put ended d.queue_tail req; queue_tail = req }

-- The request (null if there is none), and the disk after it
unfoldable pub dequeue_request : NonblockingDisk → ℕ × NonblockingDisk
dequeue_request d = if d.queue_head == 0 then (0, d) else (
  d.queue_head,
  record d {
    queue_head = d.next d.queue_head;
    queue_tail = if d.next d.queue_head == 0 then 0 else d.queue_tail;
  },
)

-- `wait_while_busy` with its request at `req`, up to the switch to another thread. The loop behind it, in which the
-- thread reads the disk's status until it is not busy, is left out.
unfoldable pub wait_while_busy : NonblockingDisk → ℕ → Run NonblockingDisk
wait_while_busy d req =
    let entered = record d { thread = put d.thread req d.scheduler.current_thread } in
    let queued = enqueue_request entered req in
    yield queued.scheduler >>= (λ s. ok (record queued { scheduler = s }))

-- What `check_and_resume` and `handle_interrupt` share: the thread of the first request is made ready.
unfoldable pub wake_first : NonblockingDisk → Run NonblockingDisk
wake_first d =
    let (req, left) = dequeue_request d in
    if req == 0
    then ok left
    else (resume left.scheduler (left.thread req) >>= (λ s. ok (record left { scheduler = s })))

-- `busy` is what `is_busy` answers.
unfoldable pub check_and_resume : NonblockingDisk → (busy : Bool) → Run NonblockingDisk
check_and_resume d busy = if not (d.queue_head == 0) && not busy then wake_first d else ok d

unfoldable pub handle_interrupt : NonblockingDisk → Run NonblockingDisk
handle_interrupt d = if not (d.queue_head == 0) then wake_first d else ok d

-- `pass_on_CPU` of kernel.C
unfoldable pub pass_on_cpu : NonblockingDisk → (busy : Bool) → Run NonblockingDisk
pass_on_cpu d busy = check_and_resume d busy >>= (λ d'.
    resume d'.scheduler d'.scheduler.current_thread
    >>= yield
    >>= (λ s. ok (record d' { scheduler = s })))
