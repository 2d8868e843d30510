-- ===== src/Console/Fifo.antt =====
-- The console's ring buffer is a queue of at most 255 bytes.
use cat_litter_box.Common.{
  ℕ, ◌+◌, ◌%◌, ◌<◌, Option, none, some, List, [], ◌∷◌, ◌++◌, length, get_or, set, length-set,
  length-append, length-replicate, get_or-set_self, get_or-set_ne, ltb, if◌then◌else◌, ◌≡◌, refl,
  ap, arith, ◌∙◌,
}
use cat_litter_box.Console.RxRing.{
  rx_buf_size, RingBuffer, empty_ring, push, pop, Op, put, get, run,
}

-- The specification: a list of bytes, oldest first.
abbrev pub enqueue : ℕ → List ℕ → List ℕ
enqueue byte q = if ltb (length q) 255 then q ++ (byte ∷ []) else q

abbrev pub dequeue : List ℕ → Option ℕ × List ℕ
dequeue [] = (none, [])
dequeue (x ∷ q) = (some x, q)

-- From index `t` the buffer holds the bytes `q`, up to index `h`.
abbrev pub Segment : List ℕ → ℕ → ℕ → List ℕ → Type 0
Segment buf t h [] = t ≡ h
Segment buf t h (x ∷ q) = (get_or buf t 0 ≡ x) × Segment buf ((t + 1) % rx_buf_size) h q

pub record Holds (r : RingBuffer) (q : List ℕ) : Type 0 where
  pub size : length r.buffer ≡ rx_buf_size
  pub head_lt : r.head < rx_buf_size
  pub tail_lt : r.tail < rx_buf_size
  pub room : length q < rx_buf_size
  pub bytes : Segment r.buffer r.tail r.head q

Segment-head :
    (buf : List ℕ) (t h : ℕ) (q : List ℕ)
    → t < rx_buf_size
    → Segment buf t h q
    → h ≡ (t + length q) % rx_buf_size
Segment-head buf t h [] lt s = omega arith
Segment-head buf t h (x ∷ q) lt (e, s) =
    omega (arith, Segment-head buf ((t + 1) % rx_buf_size) h q (omega arith) s)

-- A byte written at the head extends the segment.
Segment-set :
    (buf : List ℕ) (t h x : ℕ) (q : List ℕ)
    → length buf ≡ rx_buf_size
    → t < rx_buf_size
    → h < rx_buf_size
    → length q < 255
    → Segment buf t h q
    → Segment (set buf h x) t ((h + 1) % rx_buf_size) (q ++ (x ∷ []))
Segment-set buf t h x [] size t_lt h_lt room s =
    (rw s (get_or-set_self buf h x 0 (omega arith)), ap (λ i. (i + 1) % rx_buf_size) s)
Segment-set buf t h x (y ∷ q) size t_lt h_lt room (e, s) = (
  get_or-set_ne buf h t x 0 (omega (arith, Segment-head buf t h (y ∷ q) t_lt (e, s))) ∙ e,
  Segment-set buf ((t + 1) % rx_buf_size) h x q size (omega arith) h_lt (omega arith) s,
)

pub push-Holds :
    {r : RingBuffer} {q : List ℕ} (byte : ℕ) → Holds r q → Holds (push byte r) (enqueue byte q)
unfolding push
push-Holds {r} {q} byte v = ground (
  arith,
  Segment-head r.buffer r.tail r.head q v.tail_lt v.bytes,
  length-set r.buffer r.head byte,
  length-append q (byte ∷ []),
  Segment-set r.buffer r.tail r.head byte q v.size v.tail_lt v.head_lt,
)

pub pop-Holds :
    {r : RingBuffer} (q : List ℕ)
    → Holds r q
    → ((pop r).0 ≡ (dequeue q).0) × Holds ((pop r).1) ((dequeue q).1)
unfolding pop
pop-Holds {r} [] v = ground arith
pop-Holds {r} (x ∷ q) v =
    ground (arith, Segment-head r.buffer r.tail r.head (x ∷ q) v.tail_lt v.bytes)

-- The same calls on the specification.
abbrev pub run_queue : List Op → List ℕ → List (Option ℕ) × List ℕ
run_queue [] q = ([], q)
run_queue (put byte ∷ ops) q = run_queue ops (enqueue byte q)
run_queue (get ∷ ops) q =
    let (got, q') = dequeue q in let (rest, q'') = run_queue ops q' in (got ∷ rest, q'')

run-Holds :
    (ops : List Op) {r : RingBuffer} {q : List ℕ}
    → Holds r q
    → ((run ops r).0 ≡ (run_queue ops q).0) × Holds ((run ops r).1) ((run_queue ops q).1)
unfolding run
run-Holds [] v = (refl, v)
run-Holds (put byte ∷ ops) v = run-Holds ops (push-Holds byte v)
run-Holds (get ∷ ops) {r} {q} v =
    let (same, v') = pop-Holds q v in let (rest, v'') = run-Holds ops v' in (rw (same, rest), v'')

pub empty-Holds : Holds empty_ring []
empty-Holds = ground (arith, length-replicate {A = ℕ} rx_buf_size 0)

-- From power-up on, no sequence of pushes and pops tells the ring buffer from a queue that
-- takes a byte while it holds fewer than 255 and drops it otherwise.
pub run-refines : (ops : List Op) → (run ops empty_ring).0 ≡ (run_queue ops []).0
run-refines ops = (run-Holds ops empty-Holds).0
