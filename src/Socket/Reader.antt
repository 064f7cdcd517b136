-- ===== src/Socket/Reader.antt =====
-- The buffer of src/util.c against the bytes that its user is still to get.
use to_do_list_public.Common.{
  ℕ, zero, suc, ◌+◌, ◌≤◌, ◌≡◌, refl, sym, ap, ◌∙◌, true, some, [], ◌∷◌, ◌++◌, ◌==◌, if◌then◌else◌,
  length, take, get_or, arith, Bool-cases, inl, inr, take-drop, append-[],
}
use to_do_list_public.Text.{Bytes}
use to_do_list_public.Socket.{
  Connection, chunk, sock_readn, buf_len, SockBufRead, init_buf_fd, window, refill, smaller,
  sock_read_from,
}
use to_do_list_public.Socket.Stream.{all_bytes, is_sound, Reads, sock_readn-Reads}

-- the bytes to come: those pending in the buffer, and those still to arrive
unfoldable pub view : SockBufRead → Bytes
view r = window r.buf r.buf_ptr r.bytes_pend ++ all_bytes r.input

pub record IsGood (r : SockBufRead) : Type 0 where
  pub within : r.buf_ptr + r.bytes_pend ≤ buf_len
  pub sound : is_sound r.input ≡ true

-- a connection that is just opened
pub init_buf_fd-IsGood : (c : Connection) → is_sound c ≡ true → IsGood (init_buf_fd c)
init_buf_fd-IsGood c h = record { within = omega arith; sound = h }

pub init_buf_fd-view : (c : Connection) → view (init_buf_fd c) ≡ all_bytes c
unfolding view window
init_buf_fd-view c = refl

-- a connection on which some bytes arrive at once
abbrev pub arrived : Bytes → Connection
arrived bytes = chunk bytes ∷ []

pub arrived-IsGood : (bytes : Bytes) → IsGood (init_buf_fd (arrived bytes))
unfolding is_sound
arrived-IsGood [] = init_buf_fd-IsGood (arrived []) refl
arrived-IsGood (b ∷ bs) = init_buf_fd-IsGood (arrived (b ∷ bs)) refl

pub arrived-view : (bytes : Bytes) → view (init_buf_fd (arrived bytes)) ≡ bytes
unfolding all_bytes view window
arrived-view [] = refl
arrived-view (b ∷ bs) = append-[] (b ∷ bs)

window-shift : (f : ℕ → ℕ) (i n : ℕ) → window f (i + 1) n ≡ window (λ k. f (k + 1)) i n
unfolding window
window-shift f i zero = refl
window-shift f i (suc n) = ap (λ us. f (i + 1) ∷ us) (window-shift f (i + 1) n)

window-ext : (f g : ℕ → ℕ) (i n : ℕ) → ((k : ℕ) → f k ≡ g k) → window f i n ≡ window g i n
unfolding window
window-ext f g i zero e = refl
window-ext f g i (suc n) e = cc (e i, window-ext f g (i + 1) n e)

add_one : (k : ℕ) → k + 1 ≡ suc k
add_one k = omega arith

get_or_suc : (x : ℕ) (xs : Bytes) (k d : ℕ) → get_or (x ∷ xs) (k + 1) d ≡ get_or xs k d
get_or_suc x xs k d = rw (add_one k) refl

window-fill :
    (bytes : Bytes) (f : ℕ → ℕ) → window (λ i. get_or bytes i (f i)) 0 (length bytes) ≡ bytes
unfolding window
window-fill [] f = refl
window-fill (x ∷ xs) f =
    ap (λ us. x ∷ us)
      (window-shift (λ i. get_or (x ∷ xs) i (f i)) 0 (length xs)
        ∙ window-ext (λ k. get_or (x ∷ xs) (k + 1) (f (k + 1))) (λ k. get_or xs k (f (k + 1))) 0
            (length xs) (λ k. get_or_suc x xs k (f (k + 1)))
        ∙ window-fill xs (λ k. f (k + 1)))

length-take : (n : ℕ) (xs : Bytes) → length (take n xs) ≤ n
length-take zero xs = omega arith
length-take (suc n) [] = omega arith
length-take (suc n) (x ∷ xs) = omega (arith, length-take n xs)

-- a reader with pending bytes, or at the end of the file
pub record Filled (r r' : SockBufRead) : Type 0 where
  pub good : IsGood r'
  pub same : view r' ≡ view r
  pub ready : r'.bytes_pend ≡ 0 → view r' ≡ []

module _ (r : SockBufRead)
    (h : Reads buf_len (all_bytes r.input) (sock_readn buf_len r.input)) where
  refill-bytes_pend : (refill r).bytes_pend ≡ length (sock_readn buf_len r.input).bytes
  unfolding refill
  refill-bytes_pend = rw h.error refl

  refill_sound : is_sound (refill r).input ≡ true
  unfolding refill
  refill_sound = h.sound

  refill-view : view (refill r) ≡ all_bytes r.input
  unfolding refill view
  refill-view = rw h.error (
      ap (λ us. us ++ all_bytes (sock_readn buf_len r.input).rest)
        (window-fill (sock_readn buf_len r.input).bytes r.buf)
      ∙ ap (λ us. us ++ all_bytes (sock_readn buf_len r.input).rest) h.bytes
      ∙ ap (λ us. take buf_len (all_bytes r.input) ++ us) h.rest
      ∙ take-drop buf_len (all_bytes r.input))

refill-buf_ptr : (r : SockBufRead) → (refill r).buf_ptr ≡ 0
unfolding refill
refill-buf_ptr r = refl

empty_take : (n : ℕ) (xs : Bytes) → length (take (suc n) xs) ≡ 0 → xs ≡ []
empty_take n [] e = refl
empty_take n (x ∷ xs) e = absurd (omega (arith, e))

view-empty : (r : SockBufRead) → r.bytes_pend ≡ 0 → view r ≡ all_bytes r.input
unfolding view window
view-empty r e = ap (λ n. window r.buf r.buf_ptr n ++ all_bytes r.input) e

refill-Filled : (r : SockBufRead) → IsGood r → r.bytes_pend ≡ 0 → Filled r (refill r)
refill-Filled r g e =
    let h = sock_readn-Reads buf_len r.input g.sound in
    let p = refill-bytes_pend r h in
    record {
      good = record {
        within = omega (
          arith,
          refill-buf_ptr r,
          p,
          ap length h.bytes,
          length-take buf_len (all_bytes r.input),
        );
        sound = refill_sound r h;
      };
      same = refill-view r h ∙ sym (view-empty r e);
      ready = λ none_left.
          refill-view r h
          ∙ empty_take 8191 (all_bytes r.input) (ap length (sym h.bytes) ∙ sym p ∙ none_left);
    }

unfoldable pub fill : SockBufRead → SockBufRead
fill r = if r.bytes_pend == 0 then refill r else r

pub fill-Filled : (r : SockBufRead) → IsGood r → Filled r (fill r)
unfolding fill
fill-Filled r g = elim (Bool-cases (r.bytes_pend == 0)) [
  | inl e ↦ rw e (refill-Filled r g (ground (arith, e)))
  | inr e ↦ rw e (record { good = g; same = refl; ready = λ z. absurd (ground (arith, e, z)) })
]

-- one byte from a filled buffer
pub read_byte :
    (m : ℕ) (r : SockBufRead)
    → r.bytes_pend ≡ suc m
    → r.buf_ptr + 1 ≤ buf_len
    → sock_read_from 1 r
      ≡ some (r.buf r.buf_ptr ∷ [], record r { buf_ptr = r.buf_ptr + smaller 1 m; bytes_pend = m })
unfolding sock_read_from window
read_byte m r e fits = ground (arith, e, fits)
