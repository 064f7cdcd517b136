-- ===== src/Socket/Stream.antt =====
-- `sock_readn` and `sock_writen` of src/util.c against the bytes that are to arrive or to be sent.
use to_do_list_public.Common.{
  ℕ, zero, suc, ◌-◌, ◌≤◌, ◌<◌, ◌≡◌, refl, sym, ap, ◌∙◌, Bool, true, false, Option, none, some, List,
  [], ◌∷◌, ◌++◌, leb, ◌==◌, length, take, drop, arith, Bool-cases, inl, inr, append_assoc,
  take-append_long, take-append_short, drop-append_long, drop-append_short, take-drop,
}
use to_do_list_public.Text.{Bytes}
use to_do_list_public.Socket.{
  chunk, interrupted, failed, Connection, ReadN, got, sock_readn, Write, takes, write_interrupted,
  write_failed, WriteN, wrote, sock_writen,
}

-- the bytes that arrive until the end of the file
unfoldable pub all_bytes : Connection → Bytes
all_bytes [] = []
all_bytes (chunk [] ∷ more) = []
all_bytes (chunk (b ∷ bs) ∷ more) = (b ∷ bs) ++ all_bytes more
all_bytes (interrupted ∷ more) = all_bytes more
all_bytes (failed ∷ more) = []

-- no read fails before the end of the file
unfoldable pub is_sound : Connection → Bool
is_sound [] = true
is_sound (chunk [] ∷ more) = true
is_sound (chunk (b ∷ bs) ∷ more) = is_sound more
is_sound (interrupted ∷ more) = is_sound more
is_sound (failed ∷ more) = false

-- what reading `n` bytes should give
pub record Reads (n : ℕ) (all : Bytes) (r : ReadN) : Type 0 where
  pub error : r.error ≡ false
  pub bytes : r.bytes ≡ take n all
  pub rest : all_bytes r.rest ≡ drop n all
  pub sound : is_sound r.rest ≡ true

-- the clauses of `sock_readn` on a chunk
readn_long :
    (n b : ℕ) (bs : Bytes) (more : Connection)
    → leb (length (b ∷ bs)) n ≡ true
    → sock_readn n (chunk (b ∷ bs) ∷ more) ≡ got (b ∷ bs) (sock_readn (n - length (b ∷ bs)) more)
unfolding sock_readn
readn_long n b bs more h = rw (sock_readn, h) refl

readn_short :
    (n b : ℕ) (bs : Bytes) (more : Connection)
    → leb (length (b ∷ bs)) n ≡ false
    → sock_readn n (chunk (b ∷ bs) ∷ more)
      ≡ record { error = false; bytes = take n (b ∷ bs); rest = chunk (drop n (b ∷ bs)) ∷ more }
unfolding sock_readn
readn_short n b bs more h = rw (sock_readn, h) refl

-- a chunk of which something is left
all_bytes-cut :
    (cs : Bytes) (more : Connection)
    → 0 < length cs
    → (all_bytes (chunk cs ∷ more) ≡ cs ++ all_bytes more)
      × (is_sound (chunk cs ∷ more) ≡ is_sound more)
unfolding all_bytes is_sound
all_bytes-cut [] more h = absurd (omega (arith, h))
all_bytes-cut (c ∷ cs) more h = (refl, refl)

length-drop : (n : ℕ) (xs : Bytes) → length (drop n xs) ≡ length xs - n
length-drop zero xs = omega arith
length-drop (suc n) [] = omega arith
length-drop (suc n) (x ∷ xs) = omega (arith, length-drop n xs)

chunk-Reads :
    (n b : ℕ) (bs : Bytes) (more : Connection)
    → is_sound more ≡ true
    → Reads (n - length (b ∷ bs)) (all_bytes more) (sock_readn (n - length (b ∷ bs)) more)
    → Reads n ((b ∷ bs) ++ all_bytes more) (sock_readn n (chunk (b ∷ bs) ∷ more))
chunk-Reads n b bs more ok h = elim (Bool-cases (leb (length (b ∷ bs)) n)) [
  | inl all ↦
      let le : length (b ∷ bs) ≤ n = ground (arith, all) in
      rw (readn_long n b bs more all) (record {
        error = h.error;
        bytes =
            ap (λ us. (b ∷ bs) ++ us) h.bytes
            ∙ sym (take-append_long n (b ∷ bs) (all_bytes more) le);
        rest = h.rest ∙ sym (drop-append_long n (b ∷ bs) (all_bytes more) le);
        sound = h.sound;
      })
  | inr part ↦
      let lt : n < length (b ∷ bs) = ground (arith, part) in
      let cut = all_bytes-cut (drop n (b ∷ bs)) more (omega (arith, lt, length-drop n (b ∷ bs))) in
      rw (readn_short n b bs more part) (record {
        error = refl;
        bytes = sym (take-append_short n (b ∷ bs) (all_bytes more) (omega (arith, lt)));
        rest = cut.0 ∙ sym (drop-append_short n (b ∷ bs) (all_bytes more) (omega (arith, lt)));
        sound = cut.1 ∙ ok;
      })
]

nothing-Reads :
    (n : ℕ) (c : Connection)
    → is_sound c ≡ true
    → all_bytes c ≡ []
    → Reads n (all_bytes c) (record { error = false; bytes = []; rest = c })
nothing-Reads zero c ok e = record { error = refl; bytes = refl; rest = refl; sound = ok }
nothing-Reads (suc n) c ok e = record {
  error = refl;
  bytes = rw e refl;
  rest = rw e refl;
  sound = ok;
}

suc_is_zero : (n : ℕ) → (suc n == 0) ≡ false
suc_is_zero n = ground arith

interrupted-Reads :
    (n : ℕ) (more : Connection)
    → is_sound more ≡ true
    → Reads n (all_bytes more) (sock_readn n more)
    → Reads n (all_bytes (interrupted ∷ more)) (sock_readn n (interrupted ∷ more))
unfolding all_bytes is_sound sock_readn
interrupted-Reads zero more ok h = record { error = refl; bytes = refl; rest = refl; sound = ok }
interrupted-Reads (suc n) more ok h = rw (suc_is_zero n) h

-- Where no read fails, `sock_readn` gives the next `n` bytes, or all there are to the end of the
-- file, however they arrive and whatever interrupts it, and leaves the others.
pub sock_readn-Reads :
    (n : ℕ) (c : Connection) → is_sound c ≡ true → Reads n (all_bytes c) (sock_readn n c)
unfolding is_sound all_bytes
sock_readn-Reads n [] ok = unfold sock_readn all_bytes in nothing-Reads n [] refl refl
sock_readn-Reads n (chunk [] ∷ more) ok =
    unfold sock_readn all_bytes in nothing-Reads n (chunk [] ∷ more) refl refl
sock_readn-Reads n (chunk (b ∷ bs) ∷ more) ok =
    chunk-Reads n b bs more ok (sock_readn-Reads (n - length (b ∷ bs)) more ok)
sock_readn-Reads n (interrupted ∷ more) ok =
    interrupted-Reads n more ok (sock_readn-Reads n more ok)
sock_readn-Reads n (failed ∷ more) ok = absurd (ground (arith, ok))

-- what a call of `sock_writen` on `bytes` may have done
abbrev pub Wrote : Bytes → Option WriteN → Type 0
Wrote bytes none = Unit
Wrote bytes (some w) = (rest : Bytes) × (w.bytes ++ rest ≡ bytes) × (w.error ≡ false → rest ≡ [])

wrote-Wrote :
    (k : ℕ) (bytes : Bytes) (o : Option WriteN)
    → Wrote (drop k bytes) o
    → Wrote bytes (wrote (take k bytes) o)
wrote-Wrote k bytes none h = tt
wrote-Wrote k bytes (some w) (rest, e, f) = (
  rest,
  append_assoc (take k bytes) w.bytes rest ∙ ap (λ us. take k bytes ++ us) e ∙ take-drop k bytes,
  f,
)

-- Whatever part of the bytes each call of `write` takes, `sock_writen` sends a beginning of its
-- buffer, in order and without gaps, and the whole buffer unless it returns an error.
pub sock_writen-Wrote : (calls : List Write) (bytes : Bytes) → Wrote bytes (sock_writen calls bytes)
unfolding sock_writen
sock_writen-Wrote calls [] = ([], refl, λ h. refl)
sock_writen-Wrote [] (b ∷ bs) = tt
sock_writen-Wrote (takes k ∷ calls) (b ∷ bs) =
    wrote-Wrote k (b ∷ bs) (sock_writen calls (drop k (b ∷ bs)))
      (sock_writen-Wrote calls (drop k (b ∷ bs)))
sock_writen-Wrote (write_interrupted ∷ calls) (b ∷ bs) = sock_writen-Wrote calls (b ∷ bs)
sock_writen-Wrote (write_failed ∷ calls) (b ∷ bs) = (b ∷ bs, refl, λ h. cc)
