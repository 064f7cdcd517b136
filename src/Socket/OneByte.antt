-- ===== src/Socket/OneByte.antt =====
-- One byte from the buffer of src/util.c.
use to_do_list_public.Common.{
  ℕ, zero, suc, ◌+◌, ◌≡◌, refl, sym, ap, ◌∙◌, Option, some, [], ◌∷◌, ◌++◌, take, drop, arith, inl,
  inr, ◌⊎◌, subst,
}
use to_do_list_public.Text.{Bytes}
use to_do_list_public.Socket.{SockBufRead, window, smaller, sock_read_from, sock_read}
use to_do_list_public.Socket.Stream.{all_bytes}
use to_do_list_public.Socket.Reader.{view, IsGood, fill, fill-Filled, read_byte}

-- what reading one byte of `xs` gives
pub record Took (xs : Bytes) (o : Option (Bytes × SockBufRead)) : Type 0 where
  pub bytes : Bytes
  pub rest : SockBufRead
  pub run : o ≡ some (bytes, rest)
  pub first : bytes ≡ take 1 xs
  pub others : view rest ≡ drop 1 xs
  pub good : IsGood rest

view-suc :
    (m : ℕ) (r : SockBufRead)
    → r.bytes_pend ≡ suc m
    → view r ≡ r.buf r.buf_ptr ∷ (window r.buf (r.buf_ptr + 1) m ++ all_bytes r.input)
unfolding view window
view-suc m r e = ap (λ n. window r.buf r.buf_ptr n ++ all_bytes r.input) e

window-next : (m : ℕ) (f : ℕ → ℕ) (i : ℕ) → window f (i + smaller 1 m) m ≡ window f (i + 1) m
unfolding window
window-next zero f i = refl
window-next (suc m) f i = rw (one_or_less m) refl
  where
    one_or_less : (m : ℕ) → smaller 1 (suc m) ≡ 1
    one_or_less m = ground arith

pending_byte :
    (m : ℕ) (r : SockBufRead) → IsGood r → r.bytes_pend ≡ suc m → Took (view r) (sock_read_from 1 r)
pending_byte m r g e =
    let v = view-suc m r e in
    record {
      bytes = r.buf r.buf_ptr ∷ [];
      rest = record r { buf_ptr = r.buf_ptr + smaller 1 m; bytes_pend = m };
      run = read_byte m r e (omega (arith, e, g.within));
      first = sym (ap (take 1) v);
      others =
          unfold view in
          ap (λ us. us ++ all_bytes r.input) (window-next m r.buf r.buf_ptr) ∙ sym (ap (drop 1) v);
      good = record { within = ground (arith, e, g.within); sound = g.sound };
    }

no_byte :
    (r : SockBufRead)
    → IsGood r
    → r.bytes_pend ≡ 0
    → view r ≡ []
    → Took (view r) (sock_read_from 1 r)
unfolding sock_read_from
no_byte r g e v = record {
  bytes = [];
  rest = r;
  run = ground (arith, e);
  first = sym (ap (take 1) v);
  others = v ∙ sym (ap (drop 1) v);
  good = g;
}

zero_or_suc : (n : ℕ) → (n ≡ 0) ⊎ ((m : ℕ) × (n ≡ suc m))
zero_or_suc zero = inl refl
zero_or_suc (suc m) = inr (m, refl)

next_byte :
    (r : SockBufRead)
    → IsGood r
    → (r.bytes_pend ≡ 0 → view r ≡ [])
    → Took (view r) (sock_read_from 1 r)
next_byte r g ready = elim (zero_or_suc r.bytes_pend) [
  | inl e ↦ no_byte r g e (ready e)
  | inr (m, e) ↦ pending_byte m r g e
]

-- Reading one byte gives the next of the bytes to come, or none at the end of the file.
pub sock_read-Took : (r : SockBufRead) → IsGood r → Took (view r) (sock_read 1 r)
unfolding sock_read fill
sock_read-Took r g =
    let f = fill-Filled r g in
    subst (λ xs. Took xs (sock_read_from 1 (fill r))) f.same (next_byte (fill r) f.good f.ready)
