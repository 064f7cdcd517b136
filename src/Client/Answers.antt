-- ===== src/Client/Answers.antt =====
-- An exchange of `send_and_get_response` (src/client.c) in which a server answers.
use to_do_list_public.Common.{
  ℕ, ◌+◌, ◌≡◌, refl, ap, ◌∙◌, Bool, true, false, ℤ, pos, minus_one, int_eq, some, List, [], ◌∷◌,
  if◌then◌else◌, ◌==◌, is_negative,
}
use to_do_list_public.Socket.{SockBufRead}
use to_do_list_public.Response.{
  MessageResponse, Conversions, got_response, get_response_from_server, parse_response_from_server,
}
use to_do_list_public.Client.{
  Reach, not_connected, reached, Polling, open_all, poll_entry, poll_entries, poll_round, close_all,
  returned, send_and_get_response, take_response, Pollfd, close_entry, result, bind,
}
use to_do_list_public.Client.Events.{loop_step, loop_returns}

-- `poll` reports the entry `k` only.
abbrev pub only : ℕ → ℕ → Bool
only k j = j == k

module _ (c : Conversions) (fuel : ℕ) (client_id : ℤ) (j : ℕ) (p : Polling) (q : SockBufRead)
    (r : MessageResponse) (entry : (p.pfds j).input ≡ some q)
    (answer : get_response_from_server c fuel q p.response ≡ got_response r)
    (fresh : int_eq r.req_no (pos p.response_no_g) ≡ false)
    (success : is_negative (parse_response_from_server r client_id) ≡ false) where
  answered_entry :
      poll_entry c fuel client_id j p
      ≡ some (record (close_entry j p) {
        response = r;
        response_no_g = p.response_no_g + 1;
        success = true;
      })
  unfolding poll_entry take_response
  answered_entry = rw (poll_entry, entry) (rw answer (rw fresh (rw success refl)))

-- the entries of three servers
abbrev pub three : (first second third : Reach) → ℕ → Pollfd
three first second third = (open_all (first ∷ second ∷ third ∷ [])).0

module _ (c : Conversions) (fuel : ℕ) (client_id f g h : ℤ) (x y z : SockBufRead)
    (response r : MessageResponse) (response_no_g : ℕ) (more : List (ℕ → Bool))
    (fresh : int_eq r.req_no (pos response_no_g) ≡ false)
    (success : is_negative (parse_response_from_server r client_id) ≡ false)
    (open_g : int_eq g minus_one ≡ false) (open_h : int_eq h minus_one ≡ false) where
  -- the exchange with three connections, before the first round and behind the first answer
  start_first : Polling
  start_first = record {
    pfds = three (reached f x) (reached g y) (reached h z);
    num_open_fds = 3;
    response = response;
    response_no_g = response_no_g;
    success = false;
    closed = [];
  }

  read_first : Polling
  unfolding start_first
  read_first = record (close_entry 0 start_first) {
    response = r;
    response_no_g = response_no_g + 1;
    success = true;
  }

  end_first : Polling
  unfolding read_first
  end_first = record read_first {
    pfds = λ i.
        if i == 2
        then record { fd = minus_one; events = true; input = some z }
        else (if i == 1
            then record { fd = minus_one; events = true; input = some y }
            else read_first.pfds i);
    num_open_fds = 0;
    closed = h ∷ g ∷ f ∷ [];
  }

  close_first : close_all 3 0 read_first ≡ end_first
  unfolding close_all read_first start_first open_all end_first
  close_first = rw open_g (rw open_h refl)

  round_first :
      get_response_from_server c fuel x response ≡ got_response r
      → poll_round c fuel client_id (only 0) 3 start_first ≡ some end_first
  unfolding poll_round poll_entries start_first read_first open_all
  round_first answer =
      ap
        (λ o.
          bind (bind o (poll_entries c fuel client_id (only 0) 2 1))
            (λ p. some (if p.success then close_all 3 0 p else p)))
        (answered_entry c fuel client_id 0 start_first x r refl answer fresh success)
      ∙ ap some close_first

  -- With three connected servers, the first one's answer ends the exchange: a response that is the
  -- first to be ready, that is read whole, that has not the number of the last one and that is no
  -- failure of this client is returned, its number is counted, and all three connections are closed
  -- once. The descriptors of the other two are not -1.
  pub send-first :
      get_response_from_server c fuel x response ≡ got_response r
      → (p : Polling) × ((send_and_get_response c fuel client_id
              (reached f x ∷ reached g y ∷ reached h z ∷ [])
              (only 0 ∷ more)
              response
              response_no_g
            ≡ returned p)
          × ((result p ≡ pos 0)
              × ((p.response ≡ r)
                  × ((p.response_no_g ≡ response_no_g + 1) × (p.closed ≡ h ∷ g ∷ f ∷ [])))))
  unfolding send_and_get_response start_first end_first read_first open_all
  send-first answer = (
    end_first,
    (
      loop_step c fuel client_id 3 start_first (only 0) more end_first refl (round_first answer)
          ∙ loop_returns c fuel client_id 3 end_first more refl,
      (refl, (refl, (refl, refl))),
    ),
  )

module _ (c : Conversions) (fuel : ℕ) (client_id g h : ℤ) (y z : SockBufRead)
    (response r : MessageResponse) (response_no_g : ℕ) (more : List (ℕ → Bool))
    (fresh : int_eq r.req_no (pos response_no_g) ≡ false)
    (success : is_negative (parse_response_from_server r client_id) ≡ false) where
  start_second : Polling
  start_second = record {
    pfds = three not_connected (reached g y) (reached h z);
    num_open_fds = 2;
    response = response;
    response_no_g = response_no_g;
    success = false;
    closed = [];
  }

  read_second : Polling
  unfolding start_second
  read_second = record (close_entry 1 start_second) {
    response = r;
    response_no_g = response_no_g + 1;
    success = true;
  }

  round_second :
      get_response_from_server c fuel y response ≡ got_response r
      → poll_round c fuel client_id (only 1) 2 start_second ≡ some (close_all 2 0 read_second)
  unfolding poll_round poll_entries start_second read_second open_all
  round_second answer =
      ap (λ o. bind (bind o (λ p. some p)) (λ p. some (if p.success then close_all 2 0 p else p)))
        (answered_entry c fuel client_id 1 start_second y r refl answer fresh success)

  -- Where the first of three servers cannot be connected to, and the second one answers first, the
  -- exchange ends with the client's own standard input, the descriptor 0, closed in place of the
  -- connection to the third. The response is read whole, has not the number of the last one and is
  -- no failure of this client.
  pub send-closes-stdin :
      get_response_from_server c fuel y response ≡ got_response r
      → (p : Polling) × ((send_and_get_response c fuel client_id
              (not_connected ∷ reached g y ∷ reached h z ∷ [])
              (only 1 ∷ more)
              response
              response_no_g
            ≡ returned p)
          × (p.closed ≡ pos 0 ∷ g ∷ []))
  unfolding send_and_get_response start_second read_second open_all close_all
  send-closes-stdin answer = (
    close_all 2 0 read_second,
    (
      loop_step c fuel client_id 2 start_second (only 1) more (close_all 2 0 read_second) refl
            (round_second answer)
          ∙ loop_returns c fuel client_id 2 (close_all 2 0 read_second) more refl,
      refl,
    ),
  )
