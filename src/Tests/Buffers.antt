-- ===== src/Tests/Buffers.antt =====
-- Runs and instances of the buffers of server/src/io_buffer.cpp.
use dtime_db.Prelude.{
  ℕ, ◌+◌, ◌≤◌, ◌<◌, ◌≡◌, refl, ◌⊎◌, inl, none, some, List, [], ◌∷◌, ◌++◌, arith, length, take, drop,
  replicate, length-replicate,
}
use dtime_db.IoBuffer.{Bytes, done, exited, asserted, IoBuffer, new_buffer, clear, adjust, pop}
use dtime_db.IoBuffer.Pool.{Pool, mem_cap, alloc, revert, buffer_pool}
use dtime_db.IoBuffer.Pool.Alloc.{
  IsBuffer, IsPool, Served, IsFree-IsBuffer, new_buffer-IsFree, alloc-IsServed,
}
use dtime_db.IoBuffer.Pool.Initial.{buffer_pool-IsPool}
use dtime_db.IoBuffer.Pool.Reuse.{alloc-revert}
use dtime_db.IoBuffer.Tcp.{
  Tcp, make_room, put_back, send_data, read_data, write_fd, after_write, Answer, interrupted,
  would_block, failed, success, retry, tcp_pop,
}
use dtime_db.IoBuffer.Tcp.Contents.{held, contents, put_back-held}
use dtime_db.IoBuffer.Tcp.Room.{IsTcp, NoMemory}
use dtime_db.IoBuffer.Tcp.Queue.{Grows, send_data-Grows, read_data-Grows, write_fd-Shrinks}
use dtime_db.IoBuffer.Tcp.Stream.{Life, start, sends, writes, unwritten, Life-stream}
use dtime_db.IoBuffer.Tcp.Release.{IsGivenBack, tcp_pop-IsGivenBack}

-- Memory that happens to hold zeros.
abbrev zeros : ℕ → Bytes
zeros n = replicate n 0

length-zeros : (n : ℕ) → length (zeros n) ≡ n
length-zeros n = length-replicate n 0

abbrev initial : Pool
initial = buffer_pool zeros

initial-IsPool : IsPool initial
initial-IsPool = (buffer_pool-IsPool zeros length-zeros).0

alloc-IsServed_example :
    (5000 ≤ 8388608 → Served zeros 5000 initial)
    × (8388608 < 5000 → alloc zeros 5000 initial ≡ done (none, initial))
alloc-IsServed_example = alloc-IsServed zeros length-zeros 5000 initial initial-IsPool

buffer_pool-IsPool_example : IsPool initial × (initial.total_mem ≡ 334240)
buffer_pool-IsPool_example = buffer_pool-IsPool zeros length-zeros

abbrev fresh_buffer : IoBuffer
fresh_buffer = new_buffer zeros 4096

mem_cap_100 : mem_cap 100 ≡ some 4096
unfolding mem_cap
mem_cap_100 = refl

fresh-IsBuffer : IsBuffer fresh_buffer
fresh-IsBuffer =
    IsFree-IsBuffer 100 4096 fresh_buffer mem_cap_100 (new_buffer-IsFree zeros length-zeros 4096)

fresh_class : mem_cap 100 ≡ some fresh_buffer.capacity
unfolding mem_cap new_buffer
fresh_class = refl

alloc-revert_example :
    (p' : Pool) × (revert fresh_buffer initial ≡ done p')
    × (alloc zeros 100 p' ≡ done (some (clear fresh_buffer), initial))
alloc-revert_example =
    alloc-revert zeros 100 fresh_buffer initial initial-IsPool fresh-IsBuffer fresh_class

abbrev nothing_held : Tcp
nothing_held = (none, initial)

nothing-IsTcp : IsTcp nothing_held
nothing-IsTcp = record { buffer = tt; pool = initial-IsPool }

abbrev text : Bytes
text = 1 ∷ 2 ∷ 3 ∷ []

send_data-Grows_example :
    (length text + length (contents nothing_held.0) ≤ 8388608
      → Grows nothing_held text (some 0) (send_data zeros text nothing_held)
        ⊎ ((send_data zeros text nothing_held ≡ exited) × NoMemory nothing_held))
    × (8388608 < length text + length (contents nothing_held.0)
        → send_data zeros text nothing_held ≡ done (none, nothing_held))
send_data-Grows_example =
    send_data-Grows zeros length-zeros text nothing_held nothing-IsTcp (omega arith)

abbrev one_interruption : List (Answer Bytes)
one_interruption = interrupted ∷ success text ∷ []

retry-text : retry one_interruption ≡ done (success text)
unfolding retry
retry-text = refl

read_data-Grows_example :
    Grows nothing_held text (some 3) (read_data zeros (some 3) one_interruption nothing_held)
    ⊎ ((read_data zeros (some 3) one_interruption nothing_held ≡ exited) × NoMemory nothing_held)
read_data-Grows_example =
    read_data-Grows zeros length-zeros text one_interruption nothing_held nothing-IsTcp retry-text
      (omega arith)

fresh_start : fresh_buffer.head ≡ 0
unfolding new_buffer
fresh_start = refl

fresh_room : fresh_buffer.length + length text ≤ fresh_buffer.capacity
unfolding new_buffer
fresh_room = omega arith

abbrev text_buffer : IoBuffer
text_buffer = put_back text fresh_buffer

text_start : text_buffer.head ≡ 0
unfolding new_buffer put_back
text_start = refl

text_length : text_buffer.length ≡ 3
unfolding new_buffer put_back
text_length = refl

text-IsTcp : IsTcp (some text_buffer, initial)
text-IsTcp = record {
  buffer = ((put_back-held text fresh_buffer fresh-IsBuffer fresh_start fresh_room).0, text_start);
  pool = initial-IsPool;
}

abbrev two_taken : List (Answer ℕ)
two_taken = interrupted ∷ success 2 ∷ []

retry_two : retry two_taken ≡ done (success 2)
unfolding retry
retry_two = refl

abbrev answer : Answer ℕ
answer = success 2

write_fd-Shrinks_example :
    ((n : ℕ)
      → answer ≡ success n
      → n ≤ text_buffer.length
      → (s' : Tcp) × (write_fd two_taken (some text_buffer, initial) ≡ done (some n, s'))
        × IsTcp s'
        × (contents s'.0 ≡ drop n (held text_buffer)))
    × (answer ≡ would_block
        → write_fd two_taken (some text_buffer, initial)
          ≡ done (some 0, (some text_buffer, initial)))
    × (answer ≡ failed
        → write_fd two_taken (some text_buffer, initial) ≡ done (none, (some text_buffer, initial)))
write_fd-Shrinks_example =
    write_fd-Shrinks two_taken answer text_buffer initial text-IsTcp retry_two

fresh-IsTcp : IsTcp (some fresh_buffer, initial)
fresh-IsTcp = record { buffer = (fresh-IsBuffer, fresh_start); pool = initial-IsPool }

text_sent :
    send_data zeros text (some fresh_buffer, initial) ≡ done (some 0, (some text_buffer, initial))
unfolding send_data make_room new_buffer put_back
text_sent = refl

abbrev shorter_buffer : IoBuffer
shorter_buffer = adjust (pop 2 text_buffer)

text_taken :
    write_fd two_taken (some text_buffer, initial) ≡ done (some 2, (some shorter_buffer, initial))
unfolding write_fd retry after_write new_buffer put_back
text_taken = refl

abbrev two_bytes : Bytes
two_bytes = take 2 (held text_buffer)

abbrev blocked : List (Answer ℕ)
blocked = interrupted ∷ would_block ∷ []

blocked_last : retry blocked ≡ done would_block
unfolding retry
blocked_last = refl

nothing_taken :
    write_fd blocked (some shorter_buffer, initial) ≡ done (some 0, (some shorter_buffer, initial))
unfolding write_fd retry after_write new_buffer put_back adjust pop
nothing_taken = refl

short-Life : Life zeros (some fresh_buffer, initial) text two_bytes (some shorter_buffer, initial)
unfolding new_buffer put_back
short-Life =
    unwritten text two_bytes blocked (some 0) shorter_buffer initial (some shorter_buffer, initial)
      (writes text [] two_taken 2 text_buffer initial (some shorter_buffer, initial)
        (sends [] [] text (some fresh_buffer, initial) (some text_buffer, initial) start
          (omega arith) text_sent)
        retry_two (omega arith) text_taken)
      (inl blocked_last) nothing_taken

Life-stream_example :
    (contents (some fresh_buffer) ++ text ≡ two_bytes ++ contents (some shorter_buffer))
    × IsTcp (some shorter_buffer, initial)
Life-stream_example =
    Life-stream zeros length-zeros (some fresh_buffer, initial) (some shorter_buffer, initial) text
      two_bytes fresh-IsTcp short-Life

tcp_pop-IsGivenBack_example :
    (3 ≡ text_buffer.length
      → (p' : Pool) × (tcp_pop 3 (some text_buffer, initial) ≡ done (none, p'))
        × IsGivenBack (pop 3 text_buffer) initial p'
        × IsPool p')
    × (3 < text_buffer.length
        → (tcp_pop 3 (some text_buffer, initial) ≡ done (some (pop 3 text_buffer), initial))
          × IsBuffer (pop 3 text_buffer)
          × (held (pop 3 text_buffer) ≡ drop 3 (held text_buffer)))
    × (text_buffer.length < 3 → tcp_pop 3 (some text_buffer, initial) ≡ asserted)
tcp_pop-IsGivenBack_example =
    tcp_pop-IsGivenBack 3 text_buffer initial text-IsTcp.buffer.0 initial-IsPool
