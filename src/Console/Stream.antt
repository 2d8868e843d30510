-- ===== src/Console/Stream.antt =====
-- main/main.c: how `uart_process` cuts the bytes of the console into lines.
use mathlib.Core.List.{append_assoc, append-nil}
use cat_litter_box.Common.{
  ℕ, zero, suc, ◌+◌, ◌<◌, Bool, false, List, [], ◌∷◌, ◌++◌, length, length-append, ◌==◌, ◌≡◌, refl,
  sym, ap, arith,
}
use cat_litter_box.Console.RxRing.{rx_buf_size, RingBuffer}
use cat_litter_box.Console.Fifo.{Holds, enqueue, push-Holds, pop-Holds}
use cat_litter_box.Console.Command.{Call}
use cat_litter_box.Console.Parser.{Scan, Parser, push_all, parse_byte, uart_parser, uart_round}

-- A byte with what `is_clean_running` returns while it is parsed.
abbrev pub Byte : Type 0
Byte = Bool × ℕ

-- The bytes of a round.
pub record Round : Type 0 where
  pub clean_running : Bool
  pub bytes : List ℕ

abbrev pub tagged : Bool → List ℕ → List Byte
tagged b [] = []
tagged b (x ∷ xs) = (b, x) ∷ tagged b xs

abbrev pub stream : List Round → List Byte
stream [] = []
stream (r ∷ rs) = tagged r.clean_running r.bytes ++ stream rs

abbrev pub NoReset : List ℕ → Type 0
NoReset [] = Unit
NoReset (x ∷ xs) = ((x == b'$') ≡ false) × NoReset xs

-- The ring, empty before a round, takes each round's bytes.
abbrev pub Fits : List Round → Type 0
Fits [] = Unit
Fits (r ∷ rs) = (length r.bytes < rx_buf_size) × NoReset r.bytes × Fits rs

module _ (sscanf : List ℕ → Scan) where
  -- The rounds of `uart_process`.
  unfoldable pub session : List Round → RingBuffer → Parser → List Call × (RingBuffer × Parser)
  session [] r p = ([], (r, p))
  session (x ∷ xs) r p =
      let (calls, (r', p')) = uart_round sscanf x.clean_running x.bytes r p in
      let (rest, end) = session xs r' p' in (calls ++ rest, end)

  -- One byte after the other, with no ring and no rounds.
  abbrev pub feed : List Byte → Parser → List Call × Parser
  feed [] p = ([], p)
  feed (x ∷ xs) p =
      let (calls, p') = parse_byte sscanf x.0 x.1 p in
      let (rest, end) = feed xs p' in (calls ++ rest, end)

  pub feed-append :
      (xs ys : List Byte) (p : Parser)
      → let (calls, p') = feed xs p in
        let (rest, end) = feed ys p' in feed (xs ++ ys) p ≡ (calls ++ rest, end)
  feed-append [] ys p = refl
  feed-append (x ∷ xs) ys p =
      let (calls, p') = parse_byte sscanf x.0 x.1 p in
      rw (feed-append xs ys p', append_assoc calls (feed xs p').0) refl

enqueue_room : (x : ℕ) (q : List ℕ) → length q < 255 → enqueue x q ≡ q ++ (x ∷ [])
enqueue_room x q h = ground arith

push_all-Holds :
    (xs q : List ℕ) {r : RingBuffer}
    → Holds r q
    → length q + length xs < rx_buf_size
    → Holds (push_all xs r) (q ++ xs)
unfolding push_all
push_all-Holds [] q v h = rw append-nil v
push_all-Holds (x ∷ xs) q v h = rw (sym (append_assoc q (x ∷ []) xs)) (
    push_all-Holds xs (q ++ (x ∷ [])) (rw (enqueue_room x q (omega arith)) at (push-Holds x v))
      (omega (arith, length-append q (x ∷ []))))

module _ (sscanf : List ℕ → Scan) where
  uart_parser-feed :
      (b : Bool) (q : List ℕ) (fuel : ℕ) {r : RingBuffer} (p : Parser)
      → Holds r q
      → NoReset q
      → length q < fuel
      → let (calls, (r', p')) = uart_parser sscanf fuel b r p in
        ((calls, p') ≡ feed sscanf (tagged b q) p) × Holds r' []
  unfolding uart_parser
  uart_parser-feed b q zero p v n h = elim h [ ]
  uart_parser-feed b [] (suc fuel) p v n h =
      let (e, v') = pop-Holds [] v in rw (uart_parser, e) (refl, v')
  uart_parser-feed b (x ∷ q) (suc fuel) p v (n, ns) h =
      let (e, v') = pop-Holds (x ∷ q) v in
      let (calls, p') = parse_byte sscanf b x p in
      let (same, held) = uart_parser-feed b q fuel p' v' ns (omega arith) in
      rw (uart_parser, e, n) (ap (λ t. (calls ++ t.0, t.1)) same, held)

  -- The rounds make the calls that the bytes make one after the other, however they are cut.
  pub session-feed :
      (rs : List Round) {r : RingBuffer} (p : Parser)
      → Holds r []
      → Fits rs
      → let (calls, (r', p')) = session sscanf rs r p in
        ((calls, p') ≡ feed sscanf (stream rs) p) × Holds r' []
  unfolding session uart_round
  session-feed [] p v f = (refl, v)
  session-feed (x ∷ rs) {r} p v (short, no_reset, f) =
      let b = x.clean_running in
      let (same, held) =
        uart_parser-feed b x.bytes rx_buf_size p (push_all-Holds x.bytes [] v (omega arith))
          no_reset short in
      let (calls, (r', p')) = uart_parser sscanf rx_buf_size b (push_all x.bytes r) p in
      let (same', held') = session-feed rs p' held f in
      (
        rw (feed-append sscanf (tagged b x.bytes) (stream rs) p, sym same)
            (ap (λ t. (calls ++ t.0, t.1)) same'),
        held',
      )
