-- ===== src/Console/RxRing.antt =====
-- main/main.c: the ring buffer between the console's UART and its parser
-- One place stays empty, so that equal indices mean an empty ring. Bytes are natural numbers.
use cat_litter_box.Common.{
  ℕ, ◌+◌, ◌%◌, Option, none, some, List, [], ◌∷◌, replicate, set, get_or, ◌==◌, if◌then◌else◌,
}

abbrev pub rx_buf_size : ℕ
rx_buf_size = 256

pub record RingBuffer : Type 0 where
  pub buffer : List ℕ
  pub head : ℕ
  pub tail : ℕ

-- `rx_ring` before the first byte
abbrev pub empty_ring : RingBuffer
empty_ring = record { buffer = replicate rx_buf_size 0; head = 0; tail = 0 }

-- `RingBuffer_Push`, which drops the byte if the ring is full
unfoldable pub push : ℕ → RingBuffer → RingBuffer
push byte r =
    let next = (r.head + 1) % rx_buf_size in
    if next == r.tail then r else record r { buffer = set r.buffer r.head byte; head = next }

-- `RingBuffer_Pop`: `none` for its 0
unfoldable pub pop : RingBuffer → Option ℕ × RingBuffer
pop r =
    if r.head == r.tail
    then (none, r)
    else (some (get_or r.buffer r.tail 0), record r { tail = (r.tail + 1) % rx_buf_size })

-- A call of one of the two.
pub data Op : Type 0 where
  put : ℕ → Op
  get : Op

-- The bytes that a sequence of calls takes out, `none` where a call finds nothing.
unfoldable pub run : List Op → RingBuffer → List (Option ℕ) × RingBuffer
unfolding push pop
run [] r = ([], r)
run (put byte ∷ ops) r = run ops (push byte r)
run (get ∷ ops) r = let (got, r') = pop r in let (rest, r'') = run ops r' in (got ∷ rest, r'')
