-- ===== src/Server/Payload.antt =====
-- The loop of `handle_connection` (src/server.c) over the bytes of a payload.
use to_do_list_public.Common.{
  ℕ, zero, suc, ◌-◌, ◌+◌, ◌≤◌, ◌<◌, ◌==◌, ◌≡◌, refl, sym, ap, ◌∙◌, true, false, some, [], ◌∷◌, ◌++◌,
  leb, length, take, arith, Bool-cases, inl, inr, ◌⊎◌, length-append, take-append_short,
  take-append_long,
}
use to_do_list_public.Text.{Bytes}
use to_do_list_public.Socket.{SockBufRead, sock_readline}
use to_do_list_public.Socket.Reader.{view, IsGood}
use to_do_list_public.Socket.Lines.{first_line, after_line, sock_readline-ReadsLine}
use to_do_list_public.Protocol.{max_msg_size}
use to_do_list_public.Server.Connection.{Collected, collected, unfinished, with_line, collect}

first-after : (n : ℕ) (xs : Bytes) → first_line n xs ++ after_line n xs ≡ xs
first-after zero xs = refl
first-after (suc n) [] = refl
first-after (suc n) (c ∷ cs) = elim (Bool-cases (c == 10)) [
  | inl e ↦ rw e refl
  | inr e ↦ rw e (ap (λ us. c ∷ us) (first-after n cs))
]

first-length :
    (n : ℕ) (xs : Bytes) → length (first_line n xs) + length (after_line n xs) ≡ length xs
first-length n xs =
    omega (arith, length-append (first_line n xs) (after_line n xs), ap length (first-after n xs))

first-positive : (n : ℕ) (xs : Bytes) → 0 < length xs → 0 < length (first_line (suc n) xs)
first-positive n [] h = absurd (omega (arith, h))
first-positive n (c ∷ cs) h = elim (Bool-cases (c == 10)) [
  | inl e ↦ rw e (omega arith)
  | inr e ↦ rw e (omega arith)
]

module _ (fuel toread : ℕ) (r r' : SockBufRead) (line : Bytes)
    (e : sock_readline max_msg_size r ≡ some (line, r')) where
  collect_last :
      toread ≤ length line → collect (suc fuel) toread r ≡ collected (take toread line) r'
  unfolding collect
  collect_last h =
      let last : leb toread (length line) ≡ true = ground (arith, h) in
      rw (collect, e) (rw last refl)

  collect_more :
      length line < toread
      → collect (suc fuel) toread r ≡ with_line line (collect fuel (toread - length line) r')
  unfolding collect
  collect_more h =
      let more : leb toread (length line) ≡ false = ground (arith, h) in
      rw (collect, e) (rw more refl)

-- what the loop should leave of the bytes to come
record Got (toread : ℕ) (xs : Bytes) (o : Collected) : Type 0 where
  rest : SockBufRead
  run : o ≡ collected (take toread xs) rest

le_or_gt : (a b : ℕ) → (a ≤ b) ⊎ (b < a)
le_or_gt a b = ground arith

collect-Got :
    (fuel toread : ℕ) (r : SockBufRead)
    → IsGood r
    → toread ≤ fuel
    → 0 < toread
    → toread ≤ length (view r)
    → Got toread (view r) (collect fuel toread r)
collect-Got zero toread r g le pos_ short = absurd (omega (arith, le, pos_))
collect-Got (suc fuel) toread r g le some_ enough =
    let h = sock_readline-ReadsLine max_msg_size r g in
    let line = first_line max_msg_size (view r) in
    let after = after_line max_msg_size (view r) in
    let whole : line ++ after ≡ view r = first-after max_msg_size (view r) in
    let one = first-positive 2087 (view r) (omega (arith, some_, enough)) in
    let sum = first-length max_msg_size (view r) in
    elim (le_or_gt toread (length line)) [
      | inl last ↦ record {
        rest = h.rest;
        run =
            collect_last fuel toread r h.rest line h.run last
            ∙ ap (λ us. collected us h.rest)
                (sym (take-append_short toread line after last) ∙ ap (take toread) whole);
      }
      | inr more ↦
          let ih =
            collect-Got fuel (toread - length line) h.rest h.good (omega (arith, le, one, more))
              (omega (arith, more)) (omega (arith, ap length h.others, sum, enough, more)) in
          record {
            rest = ih.rest;
            run =
                collect_more fuel toread r h.rest line h.run more
                ∙ ap (with_line line) (
                    ih.run ∙ ap (λ us. collected (take (toread - length line) us) ih.rest) h.others)
                ∙ ap (λ us. collected us ih.rest)
                    (sym (take-append_long toread line after (omega (arith, more)))
                      ∙ ap (take toread) whole);
          }
    ]

-- On a connection without failures on which at least `toread` bytes are to come, the loop ends
-- within `toread` rounds, with the next `toread` of them as the payload.
pub collect_lem :
    (fuel toread : ℕ) (r : SockBufRead)
    → IsGood r
    → toread ≤ fuel
    → 0 < toread
    → toread ≤ length (view r)
    → (q : SockBufRead) × (collect fuel toread r ≡ collected (take toread (view r)) q)
collect_lem fuel toread r g le some_ enough =
    let h = collect-Got fuel toread r g le some_ enough in (h.rest, h.run)

-- On a connection without failures that ends before `toread` bytes have come, the loop goes on for
-- ever: it is unfinished after every number of rounds.
pub collect-unfinished :
    (fuel toread : ℕ) (r : SockBufRead)
    → IsGood r
    → length (view r) < toread
    → collect fuel toread r ≡ unfinished
unfolding collect
collect-unfinished zero toread r g lt = refl
collect-unfinished (suc fuel) toread r g lt =
    let h = sock_readline-ReadsLine max_msg_size r g in
    let line = first_line max_msg_size (view r) in
    let sum = first-length max_msg_size (view r) in
    collect_more fuel toread r h.rest line h.run (omega (arith, lt, sum))
    ∙ ap (with_line line) (
        collect-unfinished fuel (toread - length line) h.rest h.good
          (omega (arith, ap length h.others, sum, lt)))
