-- ===== src/MemPool.antt =====
-- MP5_Sources/frame_pool.C and mem_pool.C (MP6 and MP7 have the same text): memory is handed out in order and never
-- taken back.
use csce410_611_spring2026_p.Base.{ℕ, zero, suc, ◌+◌, ◌-◌, ◌%◌, word_size}

abbrev pub page_size : ℕ
page_size = 4096

-- `next_free_frame`
abbrev pub FrameSource : Type 0
FrameSource = ℕ

-- `FramePool::FramePool`
abbrev pub new_frame_source : FrameSource
new_frame_source = 0x20_0000

unfoldable pub get_frame : FrameSource → ℕ × FrameSource
get_frame next_free_frame = (next_free_frame, (next_free_frame + page_size) % word_size)

-- `start_address`
abbrev pub MemPool : Type 0
MemPool = ℕ

-- The frames after the first one, which the constructor takes from the frame pool and drops
unfoldable pub take_frames : ℕ → FrameSource → FrameSource
take_frames zero frames = frames
take_frames (suc n) frames = take_frames n (get_frame frames).1

-- `MemPool::MemPool`
unfoldable pub new_mem_pool : FrameSource → ℕ → MemPool × FrameSource
new_mem_pool frames n = let (first, rest) = get_frame frames in (first, take_frames (n - 1) rest)

unfoldable pub allocate : MemPool → ℕ → ℕ × MemPool
allocate start_address size = (start_address, (start_address + size) % word_size)

unfoldable pub release : MemPool → ℕ → MemPool
release pool address = pool
