-- ===== src/IoBuffer.antt =====
-- The buffers of server/include/io_buffer.h and server/src/io_buffer.cpp: `io_buffer` here, the pool that
-- owns the buffers not in use in Pool, and the TCP buffers on top of both in Tcp.
-- A buffer has one owner at a time, so it is a value; its `next` is the tail of the pool's list.
pub mod Pool
pub mod Tcp
use dtime_db.Prelude.{
  ℕ, ◌+◌, ◌-◌, ◌≤◌, ◌<◌, ◌≡◌, refl, ap, ◌∙◌, List, ◌++◌, arith, length, take, drop, take-append,
  drop-append, length-append, length-take, length-drop, ◌==◌, if◌then◌else◌,
}

abbrev pub Bytes : Type 0
Bytes = List ℕ

-- How a call ends: it returns; the process ends in `exit(1)` or in a failed `assert`; a signed sum is
-- out of range; or it waits for the system, which has only interrupted it so far.
pub data Outcome {ℓ} (A : Type ℓ) : Type ℓ where
  done : A → Outcome A
  exited asserted undefined waiting : Outcome A

infixl 5 ◌>>=◌
abbrev pub ◌>>=◌ {ℓ κ} : {A : Type ℓ} {B : Type κ} → Outcome A → (A → Outcome B) → Outcome B
done a >>= f = f a
exited >>= f = exited
asserted >>= f = asserted
undefined >>= f = undefined
waiting >>= f = waiting

pub record IoBuffer : Type 0 where
  pub capacity : ℕ
  pub length : ℕ
  pub head : ℕ
  pub data_ : Bytes

-- `memcpy` or `memmove` of `bs` to the place `off` of `d`.
abbrev pub copy_to : ℕ → Bytes → Bytes → Bytes
copy_to off bs d = take off d ++ (bs ++ drop (off + length bs) d)

-- The constructor: what the new memory holds is an argument.
unfoldable pub new_buffer : (ℕ → Bytes) → ℕ → IoBuffer
new_buffer fresh size = record { capacity = size; length = 0; head = 0; data_ = fresh size }

unfoldable pub clear : IoBuffer → IoBuffer
clear b = record b { length = 0; head = 0 }

unfoldable pub adjust : IoBuffer → IoBuffer
adjust b =
    if b.head == 0
    then b
    else if b.length == 0
    then record b { head = 0 }
    else record b { head = 0; data_ = copy_to 0 (take b.length (drop b.head b.data_)) b.data_ }

unfoldable pub copy : IoBuffer → IoBuffer → IoBuffer
copy b other = record b {
  head = 0;
  length = other.length;
  data_ = copy_to 0 (take other.length (drop other.head other.data_)) b.data_;
}

unfoldable pub pop : ℕ → IoBuffer → IoBuffer
pop len b = record b { length = b.length - len; head = b.head + len }
