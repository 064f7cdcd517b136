-- ===== src/Socket/Lines.antt =====
-- `sock_readline` of src/util.c: lines, their length, and what a failed read makes of it.
use to_do_list_public.Common.{
  ℕ, zero, suc, ◌+◌, ◌-◌, ◌^◌, ◌≤◌, ◌<◌, ◌≡◌, refl, ap, ◌∙◌, Option, none, some, [], ◌∷◌, ◌==◌,
  if◌then◌else◌, length, arith, Bool-cases, inl, inr, subst,
}
use to_do_list_public.Text.{Bytes}
use to_do_list_public.Socket.{
  Connection, failed, buf_len, SockBufRead, init_buf_fd, refill, smaller, sock_readn,
  sock_read_from, sock_read, sock_readline, more_of,
}
use to_do_list_public.Socket.Reader.{view, IsGood, read_byte}
use to_do_list_public.Socket.OneByte.{Took, sock_read-Took}

-- the first line of a text, with its newline, cut after `n` bytes, and the text behind it
abbrev pub first_line : ℕ → Bytes → Bytes
first_line zero xs = []
first_line (suc n) [] = []
first_line (suc n) (c ∷ cs) = if c == 10 then c ∷ [] else c ∷ first_line n cs

abbrev pub after_line : ℕ → Bytes → Bytes
after_line zero xs = xs
after_line (suc n) [] = []
after_line (suc n) (c ∷ cs) = if c == 10 then cs else after_line n cs

-- what reading a line of `xs` gives
pub record ReadsLine (n : ℕ) (xs : Bytes) (o : Option (Bytes × SockBufRead)) : Type 0 where
  pub rest : SockBufRead
  pub run : o ≡ some (first_line n xs, rest)
  pub others : view rest ≡ after_line n xs
  pub good : IsGood rest

module _ (n : ℕ) (r r' : SockBufRead) where
  readline_end : sock_read 1 r ≡ some ([], r') → sock_readline (suc n) r ≡ some ([], r')
  unfolding sock_readline
  readline_end e = rw (sock_readline, e) refl

  readline_byte :
      (c : ℕ)
      → sock_read 1 r ≡ some (c ∷ [], r')
      → sock_readline (suc n) r
        ≡ (if c == 10 then some (c ∷ [], r') else more_of c (sock_readline n r'))
  unfolding sock_readline
  readline_byte c e = rw (sock_readline, e) refl

line_step :
    (n : ℕ) (xs : Bytes) (r : SockBufRead)
    → Took xs (sock_read 1 r)
    → ((q : SockBufRead) → IsGood q → ReadsLine n (view q) (sock_readline n q))
    → ReadsLine (suc n) xs (sock_readline (suc n) r)
line_step n [] r t ih = record {
  rest = t.rest;
  run = readline_end n r t.rest (t.run ∙ ap (λ b. some (b, t.rest)) t.first);
  others = t.others;
  good = t.good;
}
line_step n (x ∷ xs) r t ih =
    let run = readline_byte n r t.rest x (t.run ∙ ap (λ b. some (b, t.rest)) t.first) in
    elim (Bool-cases (x == 10)) [
      | inl newline ↦ record {
        rest = t.rest;
        run = run ∙ rw newline refl;
        others = rw newline t.others;
        good = t.good;
      }
      | inr other ↦
          let h =
            subst (λ ys. ReadsLine n ys (sock_readline n t.rest)) t.others (ih t.rest t.good) in
          record {
            rest = h.rest;
            run = run ∙ rw other (ap (more_of x) h.run);
            others = rw other h.others;
            good = h.good;
          }
    ]

-- On a connection where no read fails, with the pending bytes inside of the buffer, `sock_readline` returns the next line of the bytes to come,
-- with its newline, cut after `n` bytes, or what is left at the end of the file, and keeps the
-- bytes behind it for the next call, however the bytes arrive.
pub sock_readline-ReadsLine :
    (n : ℕ) (r : SockBufRead) → IsGood r → ReadsLine n (view r) (sock_readline n r)
unfolding sock_readline
sock_readline-ReadsLine zero r g = record { rest = r; run = refl; others = refl; good = g }
sock_readline-ReadsLine (suc n) r g =
    line_step n (view r) r (sock_read-Took r g) (sock_readline-ReadsLine n)

abbrev AtMost : ℕ → Option (Bytes × SockBufRead) → Type 0
AtMost n none = Unit
AtMost n (some (line, r)) = length line ≤ n

more_of-AtMost :
    (n c : ℕ) (o : Option (Bytes × SockBufRead)) → AtMost n o → AtMost (suc n) (more_of c o)
more_of-AtMost n c none h = tt
more_of-AtMost n c (some (line, r)) h = omega (arith, h)

line-AtMost :
    (n : ℕ) (r : SockBufRead) (o : Option (Bytes × SockBufRead))
    → sock_read 1 r ≡ o
    → ((q : SockBufRead) → AtMost n (sock_readline n q))
    → AtMost (suc n) (sock_readline (suc n) r)
unfolding sock_readline
line-AtMost n r none e ih = rw (sock_readline, e) tt
line-AtMost n r (some ([], q)) e ih = rw (sock_readline, e) (omega arith)
line-AtMost n r (some (c ∷ cs, q)) e ih = elim (Bool-cases (c == 10)) [
  | inl newline ↦ rw (sock_readline, e) (rw newline (omega arith))
  | inr other ↦ rw (sock_readline, e) (rw other (more_of-AtMost n c (sock_readline n q) (ih q)))
]

readline-AtMost : (n : ℕ) (r : SockBufRead) → AtMost n (sock_readline n r)
unfolding sock_readline
readline-AtMost zero r = omega arith
readline-AtMost (suc n) r = line-AtMost n r (sock_read 1 r) refl (readline-AtMost n)

-- Whatever arrives, failures included, `sock_readline` writes at most the `n` bytes of its caller's
-- buffer.
pub sock_readline-length :
    (n : ℕ) (r r' : SockBufRead) (line : Bytes)
    → sock_readline n r ≡ some (line, r')
    → length line ≤ n
sock_readline-length n r r' line e = subst (AtMost n) e (readline-AtMost n r)

abbrev pub zeros : ℕ → Bytes
zeros zero = []
zeros (suc n) = 0 ∷ zeros n

read_pending : (r : SockBufRead) → 0 < r.bytes_pend → sock_read 1 r ≡ sock_read_from 1 r
unfolding sock_read
read_pending r h = ap (sock_read_from 1) (ground (arith, h))

-- a buffer of zeros with many bytes pending
zero_line :
    (n : ℕ) (r : SockBufRead)
    → n < r.bytes_pend
    → r.buf_ptr + n ≤ buf_len
    → ((i : ℕ) → r.buf i ≡ 0)
    → (r' : SockBufRead) × (sock_readline n r ≡ some (zeros n, r'))
unfolding sock_readline
zero_line zero r lt fits clear = (r, refl)
zero_line (suc n) r lt fits clear =
    let m = r.bytes_pend - 1 in
    let q : SockBufRead = record r { buf_ptr = r.buf_ptr + smaller 1 m; bytes_pend = m } in
    let run =
      read_pending r (omega (arith, lt))
      ∙ read_byte m r (omega (arith, lt)) (omega (arith, fits))
      ∙ ap (λ c. some (c ∷ [], q)) (clear r.buf_ptr) in
    let (r', h) = zero_line n q (omega (arith, lt)) (ground (arith, fits)) clear in
    (r', readline_byte n r q 0 run ∙ ap (more_of 0) h)

same_read :
    (n : ℕ) (r q : SockBufRead)
    → sock_read 1 r ≡ sock_read 1 q
    → sock_readline (suc n) r ≡ sock_readline (suc n) q
unfolding sock_readline
same_read n r q e = rw (sock_readline, e) refl

after_failure : Connection → SockBufRead
after_failure more = record { input = more; buf = λ i. 0; buf_ptr = 0; bytes_pend = 2 ^ 64 - 1 }

read_failed :
    (more : Connection)
    → sock_read 1 (init_buf_fd (failed ∷ more)) ≡ sock_read 1 (after_failure more)
unfolding sock_read refill sock_readn after_failure
read_failed more = refl

-- A connection on which the first read fails: the failure is stored as the largest `size_t`, and
-- `sock_readline` returns its caller's whole buffer full of zeros, neither an error nor the end of
-- the file.
pub sock_readline-failed :
    (n : ℕ) (more : Connection)
    → n ≤ buf_len
    → (r : SockBufRead) × (sock_readline n (init_buf_fd (failed ∷ more)) ≡ some (zeros n, r))
sock_readline-failed zero more h = (init_buf_fd (failed ∷ more), unfold sock_readline in refl)
sock_readline-failed (suc n) more h =
    let (r, run) =
      zero_line (suc n) (after_failure more) (unfold after_failure in omega (arith, h))
        (unfold after_failure in omega (arith, h)) (unfold after_failure in λ i. refl) in
    (r, same_read n (init_buf_fd (failed ∷ more)) (after_failure more) (read_failed more) ∙ run)
