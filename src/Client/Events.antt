-- ===== src/Client/Events.antt =====
-- The rounds of `poll` in `send_and_get_response` (src/client.c).
use to_do_list_public.Common.{ℕ, ◌≡◌, refl, ◌∙◌, Bool, true, false, ℤ, some, List, [], ◌∷◌, ◌==◌}
use to_do_list_public.Socket.{SockBufRead}
use to_do_list_public.Response.{MessageResponse, Conversions}
use to_do_list_public.Client.{
  Reach, not_connected, reached, Polling, open_all, poll_entries, poll_round, poll_loop, waiting,
  returned, send_and_get_response,
}

-- no event is reported for the entry 0, as `poll` does where none is asked for
abbrev pub Silent : List (ℕ → Bool) → Type 0
Silent [] = Unit
Silent (revents ∷ more) = (revents 0 ≡ false) × Silent more

quiet_round :
    (c : Conversions) (fuel : ℕ) (id : ℤ) (revents : ℕ → Bool) (p : Polling)
    → revents 0 ≡ false
    → p.success ≡ false
    → poll_round c fuel id revents 1 p ≡ some p
unfolding poll_round poll_entries
quiet_round c fuel id revents p quiet failed = rw quiet (rw failed refl)

module _ (c : Conversions) (fuel : ℕ) (id : ℤ) (nfds : ℕ) (p : Polling) where
  pub loop_step :
      (revents : ℕ → Bool) (more : List (ℕ → Bool)) (p' : Polling)
      → (p.num_open_fds == 0) ≡ false
      → poll_round c fuel id revents nfds p ≡ some p'
      → poll_loop c fuel id (revents ∷ more) nfds p ≡ poll_loop c fuel id more nfds p'
  unfolding poll_loop
  loop_step revents more p' h e = rw (poll_loop, h, e) refl

  loop_waits : (p.num_open_fds == 0) ≡ false → poll_loop c fuel id [] nfds p ≡ waiting p
  unfolding poll_loop
  loop_waits h = rw (poll_loop, h) refl

  pub loop_returns :
      (events : List (ℕ → Bool))
      → (p.num_open_fds == 0) ≡ true
      → poll_loop c fuel id events nfds p ≡ returned p
  unfolding poll_loop
  loop_returns [] h = rw (poll_loop, h) refl
  loop_returns (revents ∷ more) h = rw (poll_loop, h) refl

quiet_loop :
    (c : Conversions) (fuel : ℕ) (id : ℤ) (events : List (ℕ → Bool)) (p : Polling)
    → Silent events
    → p.success ≡ false
    → (p.num_open_fds == 0) ≡ false
    → poll_loop c fuel id events 1 p ≡ waiting p
quiet_loop c fuel id [] p quiet failed one = loop_waits c fuel id 1 p one
quiet_loop c fuel id (revents ∷ more) p quiet failed one =
    loop_step c fuel id 1 p revents more p one (quiet_round c fuel id revents p quiet.0 failed)
    ∙ quiet_loop c fuel id more p quiet.1 failed one

-- the client's loop with the one open connection that it does not poll
abbrev pub unpolled : List Reach → MessageResponse → ℕ → Polling
unpolled servers response response_no_g = record {
  pfds = (open_all servers).0;
  num_open_fds = 1;
  response = response;
  response_no_g = response_no_g;
  success = false;
  closed = [];
}

-- Where the first two of three servers cannot be connected to, the client never returns, although the
-- third has its request and may have answered it: the entry of the third is behind those that are
-- polled. After any number of rounds, in which `poll` reports nothing for an entry that asks for
-- nothing, it is waiting as at first.
pub send-waits :
    (c : Conversions) (fuel : ℕ) (client_id fd : ℤ) (q : SockBufRead) (events : List (ℕ → Bool))
    (response : MessageResponse) (response_no_g : ℕ)
    → Silent events
    → send_and_get_response c fuel client_id
        (not_connected ∷ not_connected ∷ reached fd q ∷ [])
        events
        response
        response_no_g
      ≡ waiting
          (unpolled (not_connected ∷ not_connected ∷ reached fd q ∷ []) response response_no_g)
unfolding send_and_get_response open_all
send-waits c fuel client_id fd q events response response_no_g quiet =
    quiet_loop c fuel client_id events _ quiet refl refl
