-- ===== src/Console/Lines.antt =====
-- main/main.c: a line of the console is carried out as it was sent.
use mathlib.Core.List.{append_assoc, append-nil}
use cat_litter_box.Common.{
  ℕ, zero, suc, ◌+◌, ◌≤◌, ◌<◌, ◌||◌, Bool, true, false, List, [], ◌∷◌, ◌++◌, length, length-append,
  length-set, length-replicate, set, take, ◌==◌, ◌≡◌, refl, sym, ap, ◌∙◌, subst, arith,
}
use cat_litter_box.Common.Strings.{c_string, NoZero}
use cat_litter_box.Console.RxRing.{empty_ring}
use cat_litter_box.Console.Fifo.{empty-Holds}
use cat_litter_box.Console.Command.{Call}
use cat_litter_box.Console.Parser.{Scan, Parser, boot_parser, dispatch, parse_byte, parse_buf_size}
use cat_litter_box.Console.Stream.{
  Byte, Round, stream, Fits, session, feed, feed-append, session-feed,
}

-- A line as it is sent: its bytes, and '\r' or '\n'.
pub record Line : Type 0 where
  pub text : List Byte
  pub ending : Byte

abbrev pub bytes_of : List Byte → List ℕ
bytes_of [] = []
bytes_of (x ∷ xs) = x.1 ∷ bytes_of xs

-- No byte of the text ends a string or a line.
abbrev pub IsText : List ℕ → Type 0
IsText [] = Unit
IsText (x ∷ xs) = ((x == 0) ≡ false) × ((x == b'\r' || x == b'\n') ≡ false) × IsText xs

pub record IsLine (l : Line) : Type 0 where
  pub text_is : IsText (bytes_of l.text)
  pub fits : length l.text ≤ 126
  pub ends : (l.ending.1 == b'\r' || l.ending.1 == b'\n') ≡ true

take-set :
    (buf : List ℕ) (n c : ℕ) → n < length buf → take (suc n) (set buf n c) ≡ take n buf ++ (c ∷ [])
take-set [] n c h = elim h [ ]
take-set (x ∷ buf) zero c h = refl
take-set (x ∷ buf) (suc n) c h = ap (◌∷◌ x) (take-set buf n c (omega arith))

-- A zero after `n` bytes that are not zero ends the string there.
c_string-set :
    (buf : List ℕ) (n : ℕ)
    → n < length buf
    → NoZero (take n buf)
    → c_string (set buf n 0) ≡ take n buf
c_string-set [] n h z = elim h [ ]
c_string-set (x ∷ buf) zero h z = refl
c_string-set (x ∷ buf) (suc n) h (z, zs) = rw z (ap (◌∷◌ x) (c_string-set buf n (omega arith) zs))

-- The parser stands at the start of a line.
record Ready (p : Parser) : Type 0 where
  size : length p.parse_buf ≡ parse_buf_size
  start : p.parse_idx ≡ 0

-- The parser holds the bytes `ys` of a line.
record Reading (p : Parser) (ys : List ℕ) : Type 0 where
  size : length p.parse_buf ≡ parse_buf_size
  place : p.parse_idx ≡ length ys
  short : length ys ≤ 126
  held : take p.parse_idx p.parse_buf ≡ ys
  no_zero : NoZero ys

Ready-Reading : (p : Parser) → Ready p → Reading p []
Ready-Reading p v = ground arith

boot-Ready : Ready boot_parser
boot-Ready = ground (arith, length-replicate {A = ℕ} parse_buf_size 0)

-- A byte of the text, kept.
abbrev kept : ℕ → Parser → Parser
kept c p = record p { parse_buf = set p.parse_buf p.parse_idx c; parse_idx = p.parse_idx + 1 }

NoZero-append : (xs ys : List ℕ) → NoZero xs → NoZero ys → NoZero (xs ++ ys)
NoZero-append [] ys a b = b
NoZero-append (x ∷ xs) ys (h, a) b = (h, NoZero-append xs ys a b)

one_byte : (c : ℕ) → (c == 0) ≡ false → NoZero (c ∷ [])
one_byte c z = (z, tt)

kept-held :
    (c : ℕ) (p : Parser) {ys : List ℕ}
    → Reading p ys
    → take (p.parse_idx + 1) (set p.parse_buf p.parse_idx c) ≡ ys ++ (c ∷ [])
kept-held c p v =
    subst (λ k. take k (set p.parse_buf p.parse_idx c) ≡ take p.parse_idx p.parse_buf ++ (c ∷ []))
      {x = suc p.parse_idx} (omega arith)
      (take-set p.parse_buf p.parse_idx c (omega (arith, v.size, v.place, v.short)))
    ∙ ap (λ zs. zs ++ (c ∷ [])) v.held

kept-Reading :
    (c : ℕ) (p : Parser) {ys : List ℕ}
    → Reading p ys
    → (c == 0) ≡ false
    → length ys < 126
    → Reading (kept c p) (ys ++ (c ∷ []))
kept-Reading c p {ys} v z h = record {
  size = length-set p.parse_buf p.parse_idx c ∙ v.size;
  place = omega (arith, v.place, length-append ys (c ∷ []));
  short = omega (arith, length-append ys (c ∷ []));
  held = kept-held c p v;
  no_zero = NoZero-append ys (c ∷ []) v.no_zero (one_byte c z);
}

-- `d` has been carried out, and the parser is at the start of a line again.
abbrev Carried : List Call × Parser → List Call × Bool → Type 0
Carried r d = (r.0 ≡ d.0) × (r.1.test_running ≡ d.1) × Ready r.1

ending_not_zero : (c : ℕ) → (c == b'\r' || c == b'\n') ≡ true → (c == 0) ≡ false
ending_not_zero c h = ground arith

module _ (sscanf : List ℕ → Scan) where
  parse_byte-kept :
      (b : Bool) (c : ℕ) (p : Parser) {ys : List ℕ}
      → Reading p ys
      → (c == b'\r' || c == b'\n') ≡ false
      → parse_byte sscanf b c p ≡ ([], kept c p)
  unfolding parse_byte
  parse_byte-kept b c p v h = ground arith

  -- The array of a line that `c` ends.
  abbrev ended : ℕ → Parser → List ℕ
  ended c p = set (kept c p).parse_buf (kept c p).parse_idx 0

  parse_byte-ends :
      (b : Bool) (c : ℕ) (p : Parser)
      → p.parse_idx < 127
      → (c == b'\r' || c == b'\n') ≡ true
      → let d = dispatch sscanf b p.test_running (c_string (ended c p)) in
        parse_byte sscanf b c p
        ≡ (d.0, record { parse_buf = ended c p; parse_idx = 0; test_running = d.1 })
  unfolding parse_byte
  parse_byte-ends b c p i h = ground arith

  ended_string :
      (c : ℕ) (p : Parser) {ys : List ℕ}
      → Reading p ys
      → (c == 0) ≡ false
      → c_string (ended c p) ≡ ys ++ (c ∷ [])
  ended_string c p {ys} v z =
      let e = kept-held c p v in
      c_string-set (set p.parse_buf p.parse_idx c) (p.parse_idx + 1)
        (omega (arith, length-set p.parse_buf p.parse_idx c, v.size, v.place, v.short))
        (rw e (NoZero-append ys (c ∷ []) v.no_zero (one_byte c z)))
      ∙ e

  feed-kept :
      (x : Byte) (xs : List Byte) (p : Parser) {ys : List ℕ}
      → Reading p ys
      → (x.1 == b'\r' || x.1 == b'\n') ≡ false
      → feed sscanf (x ∷ xs) p ≡ feed sscanf xs (kept x.1 p)
  feed-kept x xs p v n = rw (parse_byte-kept x.0 x.1 p v n) refl

  feed-line :
      (xs : List Byte) (e : Byte) (p : Parser) (ys : List ℕ)
      → Reading p ys
      → IsText (bytes_of xs)
      → length ys + length xs ≤ 126
      → (e.1 == b'\r' || e.1 == b'\n') ≡ true
      → let d = dispatch sscanf e.0 p.test_running (ys ++ (bytes_of xs ++ (e.1 ∷ []))) in
        Carried (feed sscanf (xs ++ (e ∷ [])) p) d
  feed-line [] e p ys v t h end =
      rw
        (
          parse_byte-ends e.0 e.1 p (omega (arith, v.place, v.short)) end,
          append-nil,
          ended_string e.1 p v (ending_not_zero e.1 end),
        )
        (refl, refl, ready)
    where
      ready :
          {b : Bool} → Ready (record { parse_buf = ended e.1 p; parse_idx = 0; test_running = b })
      ready = record {
        size =
            length-set (kept e.1 p).parse_buf (kept e.1 p).parse_idx 0
            ∙ length-set p.parse_buf p.parse_idx e.1
            ∙ v.size;
        start = refl;
      }
  feed-line (x ∷ xs) e p ys v (z, n, t) h end =
      let v' = kept-Reading x.1 p v z (omega arith) in
      let d = dispatch sscanf e.0 p.test_running (ys ++ (bytes_of (x ∷ xs) ++ (e.1 ∷ []))) in
      subst (λ r. Carried r d) (sym (feed-kept x (xs ++ (e ∷ [])) p v n))
        (rw (append_assoc ys (x.1 ∷ []) (bytes_of xs ++ (e.1 ∷ []))) at (
          feed-line xs e (kept x.1 p) (ys ++ (x.1 ∷ [])) v' t
            (omega (arith, length-append ys (x.1 ∷ []))) end))

-- The bytes that are sent for some lines, and that the parser reads of a line.
abbrev pub encode : List Line → List Byte
encode [] = []
encode (l ∷ ls) = (l.text ++ (l.ending ∷ [])) ++ encode ls

abbrev pub string_of : Line → List ℕ
string_of l = bytes_of l.text ++ (l.ending.1 ∷ [])

abbrev pub AreLines : List Line → Type 0
AreLines [] = Unit
AreLines (l ∷ ls) = IsLine l × AreLines ls

module _ (sscanf : List ℕ → Scan) where
  -- Each line is carried out in turn.
  abbrev pub carry_out : List Line → Bool → List Call
  carry_out [] test_running = []
  carry_out (l ∷ ls) test_running =
      let (calls, test) = dispatch sscanf l.ending.0 test_running (string_of l) in
      calls ++ carry_out ls test

  feed-lines :
      (ls : List Line) (p : Parser)
      → Ready p
      → AreLines ls
      → (feed sscanf (encode ls) p).0 ≡ carry_out ls p.test_running
  feed-lines [] p v a = refl
  feed-lines (l ∷ ls) p v (a, rest) =
      let (calls, test, ready) =
        feed-line sscanf l.text l.ending p [] (Ready-Reading p v) a.text_is (omega (arith, a.fits))
          a.ends in
      rw
        (
          feed-append sscanf (l.text ++ (l.ending ∷ [])) (encode ls) p,
          calls,
          feed-lines ls (feed sscanf (l.text ++ (l.ending ∷ [])) p).1 ready rest,
          test,
        )
        refl

  -- Lines of at most 126 bytes and a '\r' or '\n', with no '$' and no zero in them, are carried
  -- out one after the other from power-up, however the bytes that come are cut into rounds of at
  -- most 255 bytes.
  pub session-carry_out :
      (ls : List Line) (rs : List Round)
      → AreLines ls
      → Fits rs
      → stream rs ≡ encode ls
      → (session sscanf rs empty_ring boot_parser).0 ≡ carry_out ls false
  session-carry_out ls rs a f e =
      let (same, held) = session-feed sscanf rs boot_parser empty-Holds f in
      ap (λ t. t.0) same ∙ rw e (feed-lines ls boot_parser boot-Ready a)
